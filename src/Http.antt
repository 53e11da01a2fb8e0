-- ===== src/Http.antt =====
-- macdbg/core/http_capture.py: the passive inspection of HTTP/1 request streams.
pub mod Text
pub mod Headers
pub mod Body
pub mod Stream
pub mod Framing
pub mod Consume
pub mod Capture
mod Invariant
mod Begin
mod Parts
mod Bodies
mod Rounds
mod Totality
mod Streams
mod Feeding
pub mod Calls
mod Exact
mod Chunks
mod Messages
mod Pipeline
mod Requests
mod Tests
