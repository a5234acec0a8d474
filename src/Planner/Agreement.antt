-- ===== src/Planner/Agreement.antt =====
-- The tables of libs/joda/core/modules/queryexecution/src/pipeline/tasks/Compatability.h agree.
use joda.Base.{Bool, true, Option, none, some, ◌≡◌, refl, subst}
use joda.Planner.TaskId.{TaskId, id_eq, contains, ls_list_file}
use joda.Planner.Tables.{check, requirement, prerequisite}

-- The first task can feed the second one, where there is one.
abbrev feeds_next : TaskId → Option TaskId → Bool
feeds_next t none = true
feeds_next t (some r) = check t r

abbrev fed_by : TaskId → Option TaskId → Bool
fed_by t none = true
fed_by t (some r) = check r t

feeds_next-requirement : (t : TaskId) → feeds_next t (requirement t) ≡ true
unfolding check contains id_eq
feeds_next-requirement ls_list_file = refl
feeds_next-requirement _ = refl

fed_by-prerequisite : (t : TaskId) → fed_by t (prerequisite t) ≡ true
unfolding check contains id_eq
fed_by-prerequisite ls_list_file = refl
fed_by-prerequisite _ = refl

-- The task that `TaskRequirement` names for a task is one that `TaskCompatability` lets it feed.
pub check-requirement : (t r : TaskId) → requirement t ≡ some r → check t r ≡ true
check-requirement t r e = subst (λ o. feeds_next t o ≡ true) e (feeds_next-requirement t)

-- The task that `TaskPrerequisite` names for a task is one that `TaskCompatability` lets feed it.
pub check-prerequisite : (t r : TaskId) → prerequisite t ≡ some r → check r t ≡ true
check-prerequisite t r e = subst (λ o. fed_by t o ≡ true) e (fed_by-prerequisite t)
