-- ===== src/Openapi/Parse.antt =====
-- parse.go: from a decoded OpenAPI document to the list of its operations. Reading and decoding
-- the file is outside of the model, which starts from the decoded document.
pub mod Raw
pub mod Params
pub mod Body
pub mod Extract
