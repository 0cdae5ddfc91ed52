-- ===== src/Body.antt =====
-- filter/ngx_http_brotli_filter_module.c: the body filter, its stream and the encoder behind it.
pub mod Stream
pub mod Setup
pub mod Rounds
pub mod Laws
pub mod Open
pub mod Marks
pub mod Keeps
pub mod Joins
pub mod Feeds
pub mod Intake
pub mod Turns
pub mod Begin
pub mod Inputs
pub mod Header
pub mod Calls
pub mod Sizes
pub mod Measures
pub mod Shrinks
pub mod Ends
pub mod Sessions
pub mod Complete
pub mod StoreRuns
pub mod Store
mod Tests
