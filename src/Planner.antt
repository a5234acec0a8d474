-- ===== src/Planner.antt =====
-- libs/joda/core/modules/queryexecution: from a parsed query to the tasks of a pipeline.
pub mod TaskId
pub mod Tables
pub mod Plan
pub mod Grows
pub mod Resolve
pub mod Loop
pub mod Create
pub mod Good
pub mod Remember
pub mod Imports
pub mod Complete
pub mod Agreement
