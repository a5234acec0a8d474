-- ===== src/Document.antt =====
-- libs/joda/core/modules/storage/document/src: the handlers that read a stored document.
pub mod BloomHandler
pub mod Cost
