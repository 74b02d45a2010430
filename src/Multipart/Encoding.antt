-- ===== src/Multipart/Encoding.antt =====
-- The stream that a reader sends: a boundary line, two headers, an empty line and a body for each
-- part, with the types and lengths that the parser of src/face-listener is to find.
mod Digits
mod Parts
mod Lines
mod Separators
unfoldable pub use Digits.{decimal_bytes}
pub use Parts.{IsTokenByte, IsPart, header, stream}
pub use Lines.{LineRest, nothing, line_feed, whole, parse-header}
pub use Separators.{header-short, index_of-header, index_of-header-none}
