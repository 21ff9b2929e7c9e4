-- ===== src/Mesh/Labels.antt =====
-- setNamespaceLabels of pkg/controller/servicemesh/controlplane/namespace_labels.go.
use istio_operator.Prelude.{
  ◌≡◌, ◌⊎◌, inl, inr, refl, Bool, true, false, String, [], ◌∷◌, Option, none, some, Map, lookup,
  lookup-insert, lookup-delete, arith, ◌==◌, eq_iff, if◌then◌else◌, sym, ap, ◌∙◌,
}
use istio_operator.Mesh.Namespaces.{set_one, set_each}

-- The value of a label once the given ones are set in order, where the empty value removes it.
unfoldable pub wanted_label : String → Map String → Option String → Option String
wanted_label j [] o = o
wanted_label j ((k, v) ∷ kvs) o =
    wanted_label j kvs (if k == j then (if v == "" then none else some v) else o)

same_lookup : (j k : String) (m : Map String) → (k == j) ≡ true → lookup j m ≡ lookup k m
same_lookup j k m e = ap (λ x. lookup x m) (sym ((eq_iff k j).0 e))

lookup-set_one :
    (j k v : String) (m : Map String) (b : Bool) (o : Option String)
    → lookup k m ≡ o
    → lookup j (set_one k v (m, b)).0
      ≡ (if k == j then (if v == "" then none else some v) else lookup j m)
unfolding set_one
lookup-set_one j k v m b none e =
    ground (arith, same_lookup j k m, lookup-insert k j v m, lookup-delete k j m, eq_iff "" v)
lookup-set_one j k v m b (some w) e =
    ground (
      arith,
      same_lookup j k m,
      lookup-insert k j v m,
      lookup-delete k j m,
      eq_iff w v,
      eq_iff v "",
    )

unchanged_one :
    (k v : String) (m : Map String) (b : Bool)
    → (set_one k v (m, b)).1 ≡ false
    → ((set_one k v (m, b)).0 ≡ m) × (b ≡ false)
unfolding set_one
unchanged_one k v m b h = ground arith

lookup-set_each :
    (kvs m : Map String) (b : Bool) (j : String)
    → lookup j (set_each kvs (m, b)).0 ≡ wanted_label j kvs (lookup j m)
unfolding set_each wanted_label
lookup-set_each [] m b j = refl
lookup-set_each ((k, v) ∷ kvs) m b j =
    let changed = set_one k v (m, b) in
    lookup-set_each kvs changed.0 changed.1 j
    ∙ ap (wanted_label j kvs) (lookup-set_one j k v m b (lookup k m) refl)

unchanged_each :
    (kvs m : Map String) (b : Bool)
    → (set_each kvs (m, b)).1 ≡ false
    → ((set_each kvs (m, b)).0 ≡ m) × (b ≡ false)
unfolding set_each
unchanged_each [] m b h = (refl, h)
unchanged_each ((k, v) ∷ kvs) m b h =
    let changed = set_one k v (m, b) in
    let later = unchanged_each kvs changed.0 changed.1 h in
    let first = unchanged_one k v m b later.1 in (later.0 ∙ first.0, first.1)

required : {P : Type 0} (b : Bool) → (b ≡ false → P) → (b ≡ true) ⊎ P
required true h = inl refl
required false h = inr (h refl)

-- What the loop of setNamespaceLabels leaves, for any labels that it is to set in order, of which an
-- empty value stands for the label's removal: every label reads as the last value that was wanted for
-- it, or is missing if that is empty, and reads as before if none was wanted; and the loop says
-- that an update is required, or the labels are what they were.
pub set_each_lem :
    (kvs m : Map String) (b : Bool)
    → ((j : String) → lookup j (set_each kvs (m, b)).0 ≡ wanted_label j kvs (lookup j m))
      × (((set_each kvs (m, b)).1 ≡ true) ⊎ ((set_each kvs (m, b)).0 ≡ m))
set_each_lem kvs m b =
    (lookup-set_each kvs m b, required (set_each kvs (m, b)).1 (λ h. (unchanged_each kvs m b h).0))
