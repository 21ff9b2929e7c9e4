-- ===== src/Mesh/Charts.antt =====
-- getChartsInInstallationOrder of pkg/controller/servicemesh/controlplane/reconciler.go: every
-- rendered chart is installed once.
use istio_operator.Prelude.{
  ℕ, suc, ◌+◌, ◌≤◌, ◌≡◌, refl, Bool, true, false, not, ◌&&◌, ◌||◌, String, List, [], ◌∷◌, ◌++◌,
  is_some, lookup, has, set_insert, has-set_insert, arith, ◌==◌, eq_iff, if◌then◌else◌, ap, nat_eq,
}
use istio_operator.Mesh.Calls.{Renderings}
use istio_operator.Mesh.Installation.{
  charts_to_deploy, insert_seen, ordered_sets, seen_in_sets, unseen_charts, seen_after, add_charts,
  get_charts_in_installation_order,
}

-- How often a chart occurs in a list, in all lists of a list, and as a key of the renderings.
unfoldable pub count : String → List String → ℕ
count c [] = 0
count c (d ∷ ds) = let rest = count c ds in if d == c then suc rest else rest

unfoldable pub count_all : String → List (List String) → ℕ
count_all c [] = 0
count_all c (set ∷ sets) = count c set + count_all c sets

unfoldable pub count_rendered : String → Renderings → ℕ
count_rendered c [] = 0
count_rendered c ((d, _) ∷ r) = let rest = count_rendered c r in if d == c then suc rest else rest

abbrev pub one_if : Bool → ℕ
one_if true = 1
one_if false = 0

count_all-append :
    (c : String) (xs ys : List (List String))
    → count_all c (xs ++ ys) ≡ count_all c xs + count_all c ys
unfolding count_all
count_all-append c [] ys = omega arith
count_all-append c (x ∷ xs) ys = ground (arith, count_all-append c xs ys)

count-charts_to_deploy :
    (c : String) (r : Renderings) (charts : List String)
    → count c (charts_to_deploy r charts) ≡ (if is_some (lookup c r) then count c charts else 0)
unfolding count charts_to_deploy
count-charts_to_deploy c r [] = ground arith
count-charts_to_deploy c r (d ∷ ds) = ground (arith, count-charts_to_deploy c r ds, eq_iff d c)

count_all-add_charts :
    (c : String) (charts : List String) (sets : List (List String))
    → count_all c (add_charts charts sets) ≡ count c charts + count_all c sets
unfolding count_all count
count_all-add_charts c [] sets = omega arith
count_all-add_charts c (d ∷ ds) sets = refl

count_all-ordered_sets :
    (c : String) (r : Renderings) (sets : List (List String))
    → count_all c (ordered_sets r sets) ≡ (if is_some (lookup c r) then count_all c sets else 0)
unfolding count_all ordered_sets
count_all-ordered_sets c r [] = ground arith
count_all-ordered_sets c r (set ∷ sets) = ground (
  arith,
  count_all-ordered_sets c r sets,
  count_all-add_charts c (charts_to_deploy r set) (ordered_sets r sets),
  count-charts_to_deploy c r set,
)

has-insert_seen :
    (c : String) (charts seen : List String)
    → has c (insert_seen charts seen) ≡ (not (nat_eq (count c charts) 0) || has c seen)
unfolding insert_seen count
has-insert_seen c [] seen = refl
has-insert_seen c (d ∷ ds) seen =
    ground (arith, has-insert_seen c ds (set_insert d seen), has-set_insert d c seen)

has-seen_in_sets :
    (c : String) (r : Renderings) (sets : List (List String)) (seen : List String)
    → has c (seen_in_sets r sets seen)
      ≡ (not (nat_eq (count_all c (ordered_sets r sets)) 0) || has c seen)
unfolding seen_in_sets ordered_sets count_all
has-seen_in_sets c r [] seen = refl
has-seen_in_sets c r (set ∷ sets) seen = ground (
  arith,
  has-seen_in_sets c r sets (insert_seen (charts_to_deploy r set) seen),
  has-insert_seen c (charts_to_deploy r set) seen,
  count_all-add_charts c (charts_to_deploy r set) (ordered_sets r sets),
)

same_test : (f : String → Bool) (d c : String) → (d == c) ≡ true → f d ≡ f c
same_test f d c e = ap f ((eq_iff d c).0 e)

count_all-unseen_charts :
    (c : String) (wanted : String → Bool) (r : Renderings) (seen : List String)
    → count_all c (unseen_charts wanted r seen)
      ≡ (if wanted c && not (has c seen) then count_rendered c r else 0)
unfolding count_all unseen_charts count_rendered count
count_all-unseen_charts c wanted [] seen = ground arith
count_all-unseen_charts c wanted ((d, ms) ∷ r) seen = ground (
  arith,
  count_all-unseen_charts c wanted r seen,
  same_test wanted d c,
  same_test (λ x. has x seen) d c,
)

has-seen_after :
    (c : String) (wanted : String → Bool) (r : Renderings) (seen : List String)
    → has c (seen_after wanted r seen)
      ≡ (has c seen || (wanted c && not (nat_eq (count_rendered c r) 0)))
unfolding seen_after count_rendered
has-seen_after c wanted [] seen = ground arith
has-seen_after c wanted ((d, ms) ∷ r) seen = ground (
  arith,
  has-seen_after c wanted r seen,
  has-set_insert d c (seen_after wanted r seen),
  same_test wanted d c,
  same_test (λ x. has x seen) d c,
)

lookup_count :
    (c : String) (r : Renderings) → is_some (lookup c r) ≡ not (nat_eq (count_rendered c r) 0)
unfolding lookup count_rendered
lookup_count c [] = refl
lookup_count c ((d, ms) ∷ r) = ground (arith, lookup_count c r)

-- Where the order lists a chart once at most, and the renderings are a map, a chart occurs exactly once
-- in the sets of charts to install if it is rendered, and else not at all.
pub count-get_charts_in_installation_order :
    (c : String) (is_istio : String → Bool) (r : Renderings) (ordered : List (List String))
    → count_all c ordered ≤ 1
    → count_rendered c r ≤ 1
    → count_all c (get_charts_in_installation_order is_istio r ordered)
      ≡ one_if (is_some (lookup c r))
unfolding get_charts_in_installation_order has
count-get_charts_in_installation_order c is_istio r ordered h k =
    let seen : List String = seen_in_sets r ordered [] in
    let others : List (List String) = unseen_charts is_istio r seen in
    let last : List String = seen_after is_istio r seen in
    ground (
      arith,
      count_all-append c (ordered_sets r ordered ++ others) (unseen_charts (λ _. true) r last),
      count_all-append c (ordered_sets r ordered) others,
      count_all-ordered_sets c r ordered,
      count_all-unseen_charts c is_istio r seen,
      count_all-unseen_charts c (λ _. true) r last,
      has-seen_after c is_istio r seen,
      has-seen_in_sets c r ordered [],
      lookup_count c r,
    )
