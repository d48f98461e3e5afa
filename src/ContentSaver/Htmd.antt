-- ===== src/ContentSaver/Htmd.antt =====
-- src/content_saver/markdown_converter/htmd: the text functions of the HTML to Markdown converter.
pub mod Whitespace
pub mod Markers
pub mod Strip
pub mod HtmlEscape
pub mod MarkdownEscape
pub mod DomWalker
pub mod Table
pub mod ListProcessing
mod Tests
mod DomTests
