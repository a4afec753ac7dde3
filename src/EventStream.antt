-- ===== src/EventStream.antt =====
-- AWS event streams (providers/eventstream.go) and the response body that turns one into server-sent
-- events while it is read (proxy/provider_proxy.go).
pub mod Bytes
pub mod Headers
pub mod Parsed
pub mod Message
pub mod Sse
pub mod Stream
pub mod SseBody
