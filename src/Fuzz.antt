-- ===== src/Fuzz.antt =====
-- The fuzz harness of the Accept-Encoding walker.
pub mod Scans
pub mod Oracle
pub mod ParametersEnd
pub mod Ends
pub mod Values
pub mod Quiet
pub mod QuietParams
pub mod Parameters
pub mod Weights
pub mod Names
pub mod Passed
pub mod Elements
pub mod Harness
pub mod Agreement
mod Tests
