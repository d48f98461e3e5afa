-- ===== src/InlineCss.antt =====
-- The parts of src/inline_css that keep state: the download queue of a domain.
pub mod DomainQueue
