-- ===== src/ContentSaver.antt =====
-- The parts of src/content_saver that decide what the saved Markdown says.
pub mod Htmd
pub mod Classify
pub mod Normalizer
pub mod TableFormat
