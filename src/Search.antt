-- ===== src/Search.antt =====
-- The parts of src/search that compute on plain data.
pub mod Snippets
pub mod Fragments
