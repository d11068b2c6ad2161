-- ===== src/Shared.antt =====
-- The package shared: message types, validation.
pub mod Message
pub mod Types
pub mod Validation
pub mod Text
pub mod UriTemplate
mod Examples
mod UriTemplateExamples
