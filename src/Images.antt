-- ===== src/Images.antt =====
-- src/backend/lib/strip-image-metadata.ts: metadata taken out of uploaded images.
pub mod Chunks
pub mod Jpeg
pub mod Png
pub mod Webp
pub mod Strip
pub mod Container
mod Tests
