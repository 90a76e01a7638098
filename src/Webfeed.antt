-- ===== src/Webfeed.antt =====
-- app/internal/webfeed: feeds made from web pages.
pub mod Template
pub mod Repair
