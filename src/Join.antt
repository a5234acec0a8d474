-- ===== src/Join.antt =====
-- libs/joda/core/modules/join: the managers that group documents by a value.
pub mod Manager
