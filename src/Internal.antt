-- ===== src/Internal.antt =====
-- The package internal: correlation of requests with responses, and progress notifications.
pub mod Handler
pub mod Progress
mod Examples
mod ProgressExamples
