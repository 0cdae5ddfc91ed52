-- ===== src/AcceptEncoding.antt =====
-- The Accept-Encoding walker of ngx_http_brotli_common.h.
pub mod Scan
pub mod Qvalue
pub mod Walk
pub mod ScanEnds
pub mod ParamsEnd
pub mod WalkEnds
pub mod Grammar
pub mod ReadsValue
pub mod ReadsParam
pub mod ReadsParams
pub mod ReadsElement
pub mod ReadsField
pub mod Lines
mod Tests
pub mod LinesEnd
