-- ===== src/Documents.antt =====
-- pkg/document: the selectors, the documents of a bundle, and the errors of both.
pub mod Selectors
pub mod Library
pub mod Values
pub mod Bundles
pub mod Secrets
pub mod CloudData
pub mod Tree
