-- ===== src/Index.antt =====
-- libs/joda/core/modules/indexing: the adaptive index.
pub mod Histogram
