-- ===== src/Transport.antt =====
-- The package transport: the in-process transport, and the two ends of streamable HTTP.
pub mod InProcess
pub mod Stdio
pub mod WebSocket
pub mod HttpServer
pub mod HttpClient
pub mod HttpRoundTrip
mod InProcessExamples
mod StdioExamples
mod WebSocketExamples
mod HttpExamples
