-- ===== src/Prelude/Sets.antt =====
-- Sets of strings: Go's `map[string]struct{}`, as `sets.String` uses it.
use Prim.Native.String.{String}
use mathlib.Core.Path.{◌≡◌, refl}
use mathlib.Core.Bool.{Bool, false, not, ◌&&◌, ◌||◌}
use mathlib.Core.List.{List, [], ◌∷◌}
use native.Mathlib.Omega.{arith}
use text.Mathlib.Text.{◌==◌}
use text.Mathlib.TextEquality.{eq_iff}
use istio_operator.Prelude.Tests.{if◌then◌else◌}

-- s.Has(k), and the loop that looks for a string in a slice
unfoldable pub has : String → List String → Bool
has k [] = false
has k (x ∷ xs) = x == k || has k xs

-- s.Insert(k)
unfoldable pub set_insert : String → List String → List String
unfolding has
set_insert k s = if has k s then s else k ∷ s

-- s.Insert(ks...)
unfoldable pub set_insert_all : List String → List String → List String
unfolding set_insert
set_insert_all [] s = s
set_insert_all (k ∷ ks) s = set_insert_all ks (set_insert k s)

-- sets.NewString(ks...)
abbrev pub new_set : List String → List String
new_set ks = set_insert_all ks []

-- s.Delete(k)
unfoldable pub set_delete : String → List String → List String
set_delete k [] = []
set_delete k (x ∷ xs) = let rest = set_delete k xs in if x == k then rest else x ∷ rest

-- s.Difference(t)
unfoldable pub difference : List String → List String → List String
difference [] t = []
difference (x ∷ xs) t = let rest = difference xs t in if has x t then rest else x ∷ rest

pub has-set_insert : (k j : String) (s : List String) → has j (set_insert k s) ≡ (k == j || has j s)
unfolding set_insert
has-set_insert k j s = ground (arith, eq_iff k j)

pub has-set_insert_all :
    (j : String) (ks s : List String) → has j (set_insert_all ks s) ≡ (has j ks || has j s)
unfolding set_insert_all has
has-set_insert_all j [] s = refl
has-set_insert_all j (k ∷ ks) s =
    ground (arith, has-set_insert_all j ks (set_insert k s), has-set_insert k j s)

pub has-set_delete :
    (k j : String) (s : List String) → has j (set_delete k s) ≡ (not (k == j) && has j s)
unfolding set_delete has
has-set_delete k j [] = ground arith
has-set_delete k j (x ∷ xs) =
    ground (arith, eq_iff x k, eq_iff x j, eq_iff k j, has-set_delete k j xs)

pub has-difference :
    (j : String) (s t : List String) → has j (difference s t) ≡ (has j s && not (has j t))
unfolding difference has
has-difference j [] t = refl
has-difference j (x ∷ xs) t = ground (arith, eq_iff x j, has-difference j xs t)

pub has-new_set : (j : String) (ks : List String) → has j (new_set ks) ≡ has j ks
unfolding has
has-new_set j ks = ground (arith, has-set_insert_all j ks [])

pub ruleset set_laws =
    (has-set_insert, has-set_insert_all, has-set_delete, has-difference, has-new_set)
