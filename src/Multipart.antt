-- ===== src/Multipart.antt =====
-- src/face-listener: the parsers of the streams of parts that face readers send,
-- hikvision-multipart-json.parser.ts and snap-stream.parser.ts.
pub mod Bytes
pub mod Headers
pub mod Parser
pub mod Search
pub mod Ends
pub mod Encoding
pub mod RoundTrip
pub mod Snap
pub mod Boundary
