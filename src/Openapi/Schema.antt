-- ===== src/Openapi/Schema.antt =====
-- schema.go: the tool that an operation becomes, and the path that its arguments fill.
pub mod Build
pub mod Fill
pub mod Required
