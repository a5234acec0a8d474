-- ===== src/Similarity.antt =====
-- libs/joda/core/modules/similarity: the representations of documents, and the measures on them.
pub mod PathsReader
pub mod PathsDom
pub mod AttributeReader
pub mod Jaccard
