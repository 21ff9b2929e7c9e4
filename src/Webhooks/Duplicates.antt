-- ===== src/Webhooks/Duplicates.antt =====
-- The check for duplicates of MemberRollValidator compares sizes; the check against other rolls
-- gathers the members of all of them (pkg/controller/servicemesh/webhooks/validation/memberroll.go).
use istio_operator.Prelude.{
  suc, ◌≤◌, ◌+◌, Bool, true, false, not, ◌&&◌, ◌||◌, ◌≡◌, refl, sym, ap, ◌∙◌, subst, String, List,
  [], ◌∷◌, none, ◌==◌, eq_iff, eq_refl, arith, has, has-set_insert_all, set_insert, set_insert_all,
  length, ltb, Bool-cases, inl, inr,
}
use istio_operator.Kube.{MemberRoll}
use istio_operator.Webhooks.MemberRolls.{
  duplicates_error, members_error, namespaces_in_other_member_rolls, same_roll,
}

-- No string occurs twice.
abbrev pub NoDuplicates : List String → Type 0
NoDuplicates [] = Unit
NoDuplicates (x ∷ xs) = (has x xs ≡ false) × NoDuplicates xs

length_bound : (xs s : List String) → length (set_insert_all xs s) ≤ length xs + length s
unfolding set_insert_all set_insert
length_bound [] s = omega arith
length_bound (x ∷ xs) s = elim (Bool-cases (has x s)) [
  | inl there ↦ let h = length_bound xs s in rw there (omega arith)
  | inr new ↦ let h = length_bound xs (x ∷ s) in rw new (omega arith)
]

set_insert_old : (x : String) (s : List String) → has x s ≡ true → set_insert x s ≡ s
unfolding set_insert
set_insert_old x s h = rw h refl

set_insert_new : (x : String) (s : List String) → has x s ≡ false → set_insert x s ≡ x ∷ s
unfolding set_insert
set_insert_new x s h = rw h refl

has_same : (x y : String) (s : List String) → x == y ≡ true → has x s ≡ has y s
has_same x y s h = ap (λ k. has k s) ((eq_iff x y).0 h)

-- Of a list whose strings are all new to a set, and different from one that is inserted first.
fresh_of :
    (x : String) (xs s : List String)
    → ((y : String) → has y xs ≡ true → has y (x ∷ s) ≡ false)
    → has x xs ≡ false
unfolding has
fresh_of x xs s h = elim (Bool-cases (has x xs)) [
  | inl there ↦ ground (arith, h x there, eq_refl x)
  | inr new ↦ new
]

all_new :
    (xs s : List String)
    → length (set_insert_all xs s) ≡ length xs + length s
    → NoDuplicates xs × ((y : String) → has y xs ≡ true → has y s ≡ false)
unfolding set_insert_all has
all_new [] s h = (tt, λ y hy. cc hy)
all_new (x ∷ xs) s h = elim (Bool-cases (has x s)) [
  | inl there ↦
      let bound = length_bound xs s in
      let size : length (set_insert_all xs s) ≡ suc (length xs + length s) =
        sym (ap (λ t. length (set_insert_all xs t)) (set_insert_old x s there)) ∙ h ∙ omega arith in
      absurd (omega arith)
  | inr new ↦
      let size : length (set_insert_all xs (x ∷ s)) ≡ length xs + suc (length s) =
        sym (ap (λ t. length (set_insert_all xs t)) (set_insert_new x s new)) ∙ h ∙ omega arith in
      let (distinct, apart) = all_new xs (x ∷ s) size in
      ((fresh_of x xs s apart, distinct), λ y hy. ground (arith, apart y, has_same x y s))
]

-- A list of members passes the check for duplicates only if none occurs twice.
pub duplicates_error-NoDuplicates :
    (members : List String) → duplicates_error members ≡ none → NoDuplicates members
unfolding duplicates_error
duplicates_error-NoDuplicates members h = (all_new members [] (ground arith)).0

-- Whether a roll other than the given one lists the namespace.
unfoldable pub is_listed_elsewhere : MemberRoll → List MemberRoll → String → Bool
is_listed_elsewhere smmr [] ns = false
is_listed_elsewhere smmr (other ∷ others) ns =
    (not (same_roll other smmr) && has ns other.members) || is_listed_elsewhere smmr others ns

has-namespaces_in_other_member_rolls :
    (smmr : MemberRoll) (rolls : List MemberRoll) (s : List String) (ns : String)
    → has ns (namespaces_in_other_member_rolls smmr rolls s)
      ≡ (is_listed_elsewhere smmr rolls ns || has ns s)
unfolding namespaces_in_other_member_rolls is_listed_elsewhere
has-namespaces_in_other_member_rolls smmr [] s ns = refl
has-namespaces_in_other_member_rolls smmr (other ∷ others) s ns = ground (
  arith,
  has-namespaces_in_other_member_rolls smmr others s ns,
  has-namespaces_in_other_member_rolls smmr others (set_insert_all other.members s) ns,
  has-set_insert_all ns other.members s,
)

none_in_empty : (s : List String) (y : String) → ltb 0 (length s) ≡ false → has y s ≡ false
unfolding has
none_in_empty [] y h = refl
none_in_empty (x ∷ xs) y h = ground arith

-- A member is in none of the other rolls' members, which have no `*`, is not the mesh's namespace,
-- and is no `*` unless the others list nothing.
abbrev IsApart : String → List String → String → Type 0
IsApart mesh_namespace others x =
    (has x others ≡ false)
    × (has "*" others ≡ false)
    × (mesh_namespace == x ≡ false)
    × ((x == "*" && ltb 0 (length others)) ≡ false)

first-IsApart :
    (mesh_namespace : String) (others : List String) (m : String) (ms : List String)
    → members_error mesh_namespace others (m ∷ ms) ≡ none
    → IsApart mesh_namespace others m × (members_error mesh_namespace others ms ≡ none)
unfolding members_error
first-IsApart mesh_namespace others m ms h = ground arith

each-IsApart :
    (mesh_namespace : String) (others members : List String)
    → members_error mesh_namespace others members ≡ none
    → (x : String) → has x members ≡ true
    → IsApart mesh_namespace others x
unfolding has
each-IsApart mesh_namespace others [] h x hx = cc hx
each-IsApart mesh_namespace others (m ∷ ms) h x hx =
    let (here, rest) = first-IsApart mesh_namespace others m ms h in
    elim (Bool-cases (m == x)) [
      | inl same ↦ subst (IsApart mesh_namespace others) ((eq_iff m x).0 same) here
      | inr other ↦ each-IsApart mesh_namespace others ms rest x (ground arith)
    ]

-- A list of members passes the comparison only if none is the roll's own namespace, no other roll
-- lists one of them, or `*`, and if one is `*`, no other roll lists anything.
pub members_error_lem :
    (smmr : MemberRoll) (rolls : List MemberRoll)
    → members_error smmr.meta.namespace
        (namespaces_in_other_member_rolls smmr rolls [])
        smmr.members
      ≡ none
    → (ns : String) → has ns smmr.members ≡ true
    → ((smmr.meta.namespace == ns) ≡ false)
      × (is_listed_elsewhere smmr rolls ns ≡ false)
      × (is_listed_elsewhere smmr rolls "*" ≡ false)
      × (ns ≡ "*" → (other : String) → is_listed_elsewhere smmr rolls other ≡ false)
unfolding has
members_error_lem smmr rolls h ns hns =
    let others = namespaces_in_other_member_rolls smmr rolls [] in
    let listed : (x : String) → is_listed_elsewhere smmr rolls x ≡ has x others =
      λ x. ground (arith, has-namespaces_in_other_member_rolls smmr rolls [] x) in
    let (apart, no_star, own, alone) =
      each-IsApart smmr.meta.namespace others smmr.members h ns hns in
    (
      own,
      listed ns ∙ apart,
      listed "*" ∙ no_star,
      λ star other.
          listed other ∙ none_in_empty others other (ground (arith, (eq_iff ns "*").1 star)),
    )
