-- ===== src/Pipeline.antt =====
-- libs/joda/core/modules/queryexecution/src/pipeline: building a pipeline, and the rules that replace
-- its tasks.
pub mod Rule
pub mod Target
pub mod Triple
pub mod Queues
pub mod Build
pub mod Outputs
pub mod Wiring
