-- ===== src/Status.antt =====
-- pkg/apis/maistra/status/status.go: the conditions and annotations that every status carries.
-- The three Go types of a condition (of a control plane, a member and a member roll) have the same
-- fields, and so have their methods: one record stands for them. A `nil` receiver is not modelled:
-- the controllers call these methods on fields of an object that they hold.
pub mod Conditions
pub mod Annotations
use istio_operator.Prelude.{
  ℕ, Bool, ◌&&◌, String, List, [], ◌∷◌, ◌++◌, Option, none, some, Map, lookup, insert, delete, ◌==◌,
  if◌then◌else◌, concat,
}

pub record Condition : Type 0 where
  pub type : String
  pub status : String
  pub reason : String
  pub message : String
  pub last_transition_time : ℕ

-- Condition.Matches
unfoldable pub matches : Condition → String → String → String → Bool
matches c status reason message = c.status == status && (c.reason == reason && c.message == message)

-- Condition{Type: conditionType, Status: ConditionStatusUnknown}
abbrev pub unknown : String → Condition
unknown condition_type = record {
  type = condition_type;
  status = "Unknown";
  reason = "";
  message = "";
  last_transition_time = 0;
}

-- StatusType.GetCondition
unfoldable pub get_condition : String → List Condition → Condition
get_condition condition_type [] = unknown condition_type
get_condition condition_type (c ∷ cs) =
    if c.type == condition_type then c else get_condition condition_type cs

-- The condition that replaces `prev`: the time moves only if the status does.
unfoldable pub transition : ℕ → Condition → Condition → Condition
transition now prev c =
    if prev.status == c.status
    then record c { last_transition_time = prev.last_transition_time }
    else record c { last_transition_time = now }

-- StatusType.SetCondition, at the time `now`
unfoldable pub set_condition : ℕ → Condition → List Condition → List Condition
set_condition now c [] = record c { last_transition_time = now } ∷ []
set_condition now c (prev ∷ cs) =
    if prev.type == c.type then transition now prev c ∷ cs else prev ∷ set_condition now c cs

-- StatusType.RemoveCondition
unfoldable pub remove_condition : String → List Condition → List Condition
remove_condition condition_type [] = []
remove_condition condition_type (c ∷ cs) =
    if c.type == condition_type then cs else c ∷ remove_condition condition_type cs

-- ComponentStatus, without the `children` that nothing reads
pub record ComponentStatus : Type 0 where
  pub resource : String
  pub conditions : List Condition

-- NewComponentStatus
unfoldable pub new_component_status : ComponentStatus
new_component_status = record { resource = ""; conditions = [] }

-- ComponentStatusList.FindComponentByName
unfoldable pub find_component_by_name : String → List ComponentStatus → Option ComponentStatus
find_component_by_name name [] = none
find_component_by_name name (s ∷ ss) =
    if s.resource == name then some s else find_component_by_name name ss

-- StatusBase's annotations: `none` is the nil map, which reads as empty
abbrev pub Annotations : Type 0
Annotations = Option (Map String)

or_empty : Option String → String
or_empty none = ""
or_empty (some v) = v

-- StatusBase.GetAnnotation
unfoldable pub get_annotation : String → Annotations → String
unfolding or_empty
get_annotation name none = ""
get_annotation name (some m) = or_empty (lookup name m)

-- StatusBase.SetAnnotation
unfoldable pub set_annotation : String → String → Annotations → Annotations
set_annotation name value none = some (insert name value [])
set_annotation name value (some m) = some (insert name value m)

-- StatusBase.RemoveAnnotation
unfoldable pub remove_annotation : String → Annotations → Annotations
remove_annotation name none = none
remove_annotation name (some m) = some (delete name m)

-- ComposeReconciledVersion, whose `%d` is `print_int`
unfoldable pub compose_reconciled_version : (ℕ → String) → String → ℕ → String
compose_reconciled_version print_int operator_version generation =
    concat (operator_version ∷ "-" ∷ print_int generation ∷ [])
