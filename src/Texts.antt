-- ===== src/Texts.antt =====
-- What the code does with texts: surrounding whitespace, deep-link payloads, and links.
pub mod Strip
pub mod Slugs
pub mod Urls
