-- ===== src/Values.antt =====
-- libs/joda/core/modules/query/values: the expressions of queries, their values on a document, and
-- the optimisation of predicates after parsing.
pub mod Provider
pub mod Eval
pub mod Optimize
pub mod Laws
pub mod Soundness
pub mod Junctions
pub mod Normal
pub mod Cast
pub mod Strings
pub mod MemberCount
pub mod Kinds
pub mod Math
pub mod Substring
