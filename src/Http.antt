-- ===== src/Http.antt =====
-- src/transport/http/http_codec.cpp: HTTP/1.1 heads, chunked bodies and server-sent events.
pub mod Head
pub mod Post
pub mod SessionServer
pub mod Sse
pub mod Channel
pub mod Origin
pub mod Chunked
