-- ===== src/Profiles/Kept.antt =====
-- What merging keeps of the values that it merges into.
use istio_operator.Prelude.{
  ◌≡◌, ◌≢◌, refl, String, Bool, true, false, List, [], ◌∷◌, Option, none, some, if◌then◌else◌, ◌==◌,
  arith, eq_iff, sym, ap, ◌∙◌,
}
use istio_operator.Profiles.Values.{
  Value, scalar, table, Fields, end, field, find, set_field, merge_value, merge_values,
}

find-set_field :
    (key asked : String) (v : Value) (fs : Fields)
    → find asked (set_field key v fs) ≡ (if key == asked then some v else find asked fs)
unfolding find set_field
find-set_field key asked v end = refl
find-set_field key asked v (field name held rest) =
    ground
      (arith, find-set_field key asked v rest, eq_iff key asked, eq_iff name key, eq_iff name asked)

unfoldable pub member : String → Option Value → Option Value
member key none = none
member key (some (scalar s)) = none
member key (some (table fs)) = find key fs

-- The value at a path of keys
unfoldable pub read : List String → Option Value → Option Value
unfolding member
read [] found = found
read (key ∷ keys) found = read keys (member key found)

-- Every value but a map that is in the first is in the second, at the same path.
abbrev pub IsKeptIn : Option Value → Option Value → Type 0
IsKeptIn v w =
    (path : List String) (s : String)
    → read path v ≡ some (scalar s)
    → read path w ≡ some (scalar s)

read-none : (path : List String) (v : Value) → read path none ≢ some v
unfolding read
read-none [] v h = ground (arith, h)
read-none (key ∷ keys) v h = read-none keys v h

find_other :
    (name key : String) (w : Option Value) (fs : Fields)
    → (name == key) ≡ true
    → find name fs ≡ w
    → find key fs ≡ w
find_other name key w fs same h = ap (λ k. find k fs) (sym ((eq_iff name key).0 same)) ∙ h

module _ (key : String) (keys : List String) (s : String)
    (ih : (v w : Value)
      → read keys (some v) ≡ some (scalar s)
      → read keys (some (merge_value v w)) ≡ some (scalar s)) where
  merged_field :
      (name : String) (w : Value) (fs : Fields) (held : Option Value) (same : Bool)
      → find name fs ≡ held
      → (name == key) ≡ same
      → read keys (find key fs) ≡ some (scalar s)
      → read keys (
          find key (elim held [
            | none ↦ set_field name w fs
            | some v ↦ set_field name (merge_value v w) fs
          ]))
        ≡ some (scalar s)
  merged_field name w fs none true found same h =
      absurd (read-none keys _ (sym (ap (read keys) (find_other name key none fs same found)) ∙ h))
  merged_field name w fs none false found same h = rw (find-set_field name key w fs, same) h
  merged_field name w fs (some v) true found same h =
      rw (find-set_field name key (merge_value v w) fs, same)
        (ih v w (sym (ap (read keys) (find_other name key (some v) fs same found)) ∙ h))
  merged_field name w fs (some v) false found same h =
      rw (find-set_field name key (merge_value v w) fs, same) h

  merged_fields :
      (input base : Fields)
      → read keys (find key base) ≡ some (scalar s)
      → read keys (find key (merge_values base input)) ≡ some (scalar s)
  unfolding merge_values
  merged_fields end base h = h
  merged_fields (field name w rest) base h =
      merged_fields rest _ (merged_field name w base (find name base) (name == key) refl refl h)

kept_leaf :
    (v w : Value) (s : String) → some v ≡ some (scalar s) → some (merge_value v w) ≡ some (scalar s)
unfolding merge_value
kept_leaf (scalar b) w s h = h
kept_leaf (table b) (scalar i) s h = h
kept_leaf (table b) (table i) s h = ground (arith, h)

kept_below :
    (key : String) (keys : List String) (s : String)
    → ((v w : Value)
        → read keys (some v) ≡ some (scalar s)
        → read keys (some (merge_value v w)) ≡ some (scalar s))
    → (v w : Value) → read (key ∷ keys) (some v) ≡ some (scalar s)
    → read (key ∷ keys) (some (merge_value v w)) ≡ some (scalar s)
unfolding merge_value read member
kept_below key keys s ih (scalar b) w h = h
kept_below key keys s ih (table b) (scalar i) h = h
kept_below key keys s ih (table b) (table i) h = merged_fields key keys s ih i b h

kept_at :
    (path : List String) (s : String) (v w : Value)
    → read path (some v) ≡ some (scalar s)
    → read path (some (merge_value v w)) ≡ some (scalar s)
unfolding read
kept_at [] s v w h = kept_leaf v w s h
kept_at (key ∷ keys) s v w h = kept_below key keys s (kept_at keys s) v w h

-- Merging keeps the base's values.
pub merge_value-IsKeptIn : (v w : Value) → IsKeptIn (some v) (some (merge_value v w))
merge_value-IsKeptIn v w path s h = kept_at path s v w h
