-- ===== src/Status/Conditions.antt =====
-- What GetCondition, SetCondition and RemoveCondition do together.
use istio_operator.Prelude.{
  ℕ, suc, ◌≤◌, ◌≡◌, refl, Bool, false, String, List, [], ◌∷◌, arith, ◌==◌, eq_iff, if◌then◌else◌,
  eq_refl, ap, ◌∙◌, true, ◌||◌, ◌&&◌,
}
use istio_operator.Status.{
  Condition, unknown, get_condition, transition, set_condition, remove_condition,
}

-- Whether a list holds a condition of a type, and how many it holds.
unfoldable pub present : String → List Condition → Bool
present t [] = false
present t (c ∷ cs) = c.type == t || present t cs

unfoldable pub count_type : String → List Condition → ℕ
count_type t [] = 0
count_type t (c ∷ cs) = let rest = count_type t cs in if c.type == t then suc rest else rest

-- The lists in which a condition type occurs once at most.
pub record IsUnique (cs : List Condition) : Type 0 where
  pub once : (t : String) → count_type t cs ≤ 1

type-transition : (now : ℕ) (prev c : Condition) → (transition now prev c).type ≡ c.type
unfolding transition
type-transition now prev c = ground arith

-- What is read after a SetCondition, by way of the condition that replaces another.
at_set_condition :
    (now : ℕ) (c : Condition) (cs : List Condition) (t : String)
    → get_condition t (set_condition now c cs) ≡ (
        if c.type == t
        then (if present t cs
            then transition now (get_condition t cs) c
            else record c { last_transition_time = now })
        else get_condition t cs)
unfolding get_condition set_condition present
at_set_condition now c [] t = ground arith
at_set_condition now c (p ∷ cs) t = ground (
  arith,
  at_set_condition now c cs t,
  type-transition now p c,
  eq_iff p.type c.type,
  eq_iff p.type t,
  eq_iff c.type t,
)

replaced :
    (now : ℕ) (p c : Condition)
    → transition now p c ≡ record c {
      last_transition_time = if p.status == c.status then p.last_transition_time else now;
    }
unfolding transition
replaced now p c = by_status (p.status == c.status)
  where
    by_status :
        (same : Bool)
        → (if same
            then record c { last_transition_time = p.last_transition_time }
            else record c { last_transition_time = now })
          ≡ record c { last_transition_time = if same then p.last_transition_time else now }
    by_status true = refl
    by_status false = refl

timed :
    (now : ℕ) (there : Bool) (p c : Condition)
    → (if there then transition now p c else record c { last_transition_time = now }) ≡ record c {
      last_transition_time =
          if there && (p.status == c.status) then p.last_transition_time else now;
    }
timed now true p c = replaced now p c
timed now false p c = refl

-- Reading a type after a SetCondition: at the type that was set, the status, reason and message are
-- the new ones, with the old time if a condition of that type was there with the same status and
-- the present time if not; at every other type, what was there.
pub get-set_condition :
    (now : ℕ) (c : Condition) (cs : List Condition) (t : String)
    → get_condition t (set_condition now c cs) ≡ (
        if c.type == t
        then record c {
          last_transition_time =
              if present t cs && ((get_condition t cs).status == c.status)
              then (get_condition t cs).last_transition_time
              else now;
        }
        else get_condition t cs)
get-set_condition now c cs t =
    at_set_condition now c cs t
    ∙ ap (λ x. if c.type == t then x else get_condition t cs)
        (timed now (present t cs) (get_condition t cs) c)

count_type-set_condition :
    (now : ℕ) (c : Condition) (cs : List Condition) (t : String)
    → count_type t (set_condition now c cs)
      ≡ (if c.type == t then (if present t cs then count_type t cs else 1) else count_type t cs)
unfolding count_type set_condition present
count_type-set_condition now c [] t = ground arith
count_type-set_condition now c (p ∷ cs) t = ground (
  arith,
  count_type-set_condition now c cs t,
  eq_iff p.type c.type,
  eq_iff p.type t,
  eq_iff c.type t,
  type-transition now p c,
)

-- SetCondition keeps every condition type unique.
pub set_condition-IsUnique :
    (now : ℕ) (c : Condition) {cs : List Condition}
    → IsUnique cs
    → IsUnique (set_condition now c cs)
set_condition-IsUnique now c {cs} u = record {
  once = λ t. ground (arith, count_type-set_condition now c cs t, u.once t);
}

get_condition-absent :
    (cs : List Condition) (t : String) → count_type t cs ≡ 0 → get_condition t cs ≡ unknown t
unfolding get_condition count_type
get_condition-absent [] t h = refl
get_condition-absent (c ∷ cs) t h = ground (arith, get_condition-absent cs t)

get-remove_condition_at :
    (cs : List Condition) (r t : String)
    → count_type r cs ≤ 1
    → get_condition t (remove_condition r cs) ≡ (if r == t then unknown t else get_condition t cs)
unfolding get_condition remove_condition count_type
get-remove_condition_at [] r t h = ground arith
get-remove_condition_at (c ∷ cs) r t h = ground (
  arith,
  get-remove_condition_at cs r t,
  eq_iff c.type r,
  eq_iff c.type t,
  eq_iff r t,
  get_condition-absent cs t,
)

-- Where types are unique, a type that RemoveCondition removed reads as Unknown, and every other
-- type as before.
pub get-remove_condition :
    (cs : List Condition) (r t : String)
    → IsUnique cs
    → get_condition t (remove_condition r cs) ≡ (if r == t then unknown t else get_condition t cs)
get-remove_condition cs r t u = get-remove_condition_at cs r t (u.once r)

-- The status that a SetCondition leaves at its own type.
pub status-set_condition :
    (now : ℕ) (c : Condition) (cs : List Condition)
    → (get_condition c.type (set_condition now c cs)).status ≡ c.status
status-set_condition now c cs = rw (get-set_condition now c cs c.type, eq_refl) refl

-- A SetCondition leaves the other types alone.
pub get-set_condition_ne :
    (now : ℕ) (c : Condition) (cs : List Condition) (t : String)
    → (c.type == t) ≡ false
    → get_condition t (set_condition now c cs) ≡ get_condition t cs
get-set_condition_ne now c cs t h = rw (get-set_condition now c cs t, h)
