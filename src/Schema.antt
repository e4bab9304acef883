-- ===== src/Schema.antt =====
-- buf/jsonschema.go: the generator of JSON schemas, one module for each part of it.
pub mod Keywords
pub mod Members
pub mod Signed
pub mod Rules
pub mod Unsigned
pub mod Bytes
pub mod Floats
pub mod Json
pub mod Fields
pub mod Enums
pub mod Reals
pub mod Texts
pub mod Scalars
pub mod Values
pub mod Messages
pub mod Generate
pub mod Choices
pub mod Bundles
mod Examples
