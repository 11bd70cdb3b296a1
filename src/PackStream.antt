-- ===== src/PackStream.antt =====
-- bolt/src/packstream.rs: the value encoding that Bolt carries, and its chunked messages.
pub mod Value
pub mod Words
pub mod Encode
pub mod Reader
pub mod Message
mod Headers
mod Scalars
pub mod Sorted
pub mod RoundTrip
mod Tame
pub mod Bounds
pub mod Messages
pub mod Chunked
pub mod Streams
mod Checks
