-- ===== src/Roll/Counting.antt =====
-- Which namespaces the status of a member roll names as configured, terminating and pending
-- (pkg/controller/servicemesh/memberroll/controller.go, steps 5 and 7 of reconcileObject).
use istio_operator.Prelude.{
  Bool, true, false, not, ◌&&◌, ◌||◌, ◌≡◌, refl, ◌∙◌, String, List, [], ◌∷◌, is_some, ◌==◌, arith,
  has, set_insert, difference, if◌then◌else◌, has-set_insert, has-difference,
}
use istio_operator.Prog.{◌>>=◌}
use istio_operator.Kube.{Env, Call, Member, RollStatus, ControlPlane, IsSorting, now}
use istio_operator.Roll.Summary.{
  Tally, StatusMap, is_configured, is_up_to_date, count_member, count_members,
}
use istio_operator.Roll.Sync.{empty_tally, summed_status}

-- Whether a member that passes a test stands in a namespace.
unfoldable pub some_member : (Member → Bool) → String → List Member → Bool
some_member test ns [] = false
some_member test ns (m ∷ ms) = (test m && m.meta.namespace == ns) || some_member test ns ms

abbrev pub is_deleting : Member → Bool
is_deleting m = is_some m.meta.deletion_timestamp

or_false : (a : Bool) → (a || false) ≡ a
or_false a = ground arith

pending_lem :
    (k d u' t' u t : Bool)
    → d ≡ (k && not u')
    → u' ≡ u
    → t' ≡ t
    → (d && not t') ≡ (k && (not u && not t))
pending_lem k d u' t' u t p q r = ground arith

module _ {E : Type 0} (env : Env E) (mesh : ControlPlane) where
  -- A member that is not being deleted, belongs to the mesh and was reconciled.
  abbrev pub counts_as_configured : Member → Bool
  counts_as_configured m = not (is_deleting m) && is_configured env mesh m

  abbrev pub counts_as_up_to_date : Member → Bool
  counts_as_up_to_date m =
      not (is_deleting m) && (is_configured env mesh m && is_up_to_date env mesh m)

  insert_if :
      (b : Bool) (k ns : String) (s : List String)
      → has ns (if b then set_insert k s else s) ≡ ((b && k == ns) || has ns s)
  insert_if true k ns s = has-set_insert k ns s
  insert_if false k ns s = refl

  -- One more member in front: `a` is its own test, `b` that of the others, `c` what was there.
  step : (a b c x y : Bool) → x ≡ (b || y) → y ≡ (a || c) → x ≡ ((a || b) || c)
  step a b c x y p q = ground arith

  -- The sets after step 5, from any tally: a namespace is in one of them if it was, or if a member in
  -- it passes the test of that set.
  count_members_from :
      (members : List Member) (tally : Tally) (log : List Call) (ns : String)
      → let result = (count_members env mesh members tally log).0 in
        (has ns result.configured
          ≡ (some_member counts_as_configured ns members || has ns tally.configured))
        × (has ns result.up_to_date
            ≡ (some_member counts_as_up_to_date ns members || has ns tally.up_to_date))
        × (has ns result.terminating
            ≡ (some_member is_deleting ns members || has ns tally.terminating))
  unfolding count_members count_member ◌>>=◌ now some_member
  count_members_from [] tally log ns = (refl, refl, refl)
  count_members_from (m ∷ ms) tally log ns =
      let (c, u, t) =
        count_members_from ms (count_member env mesh (env.clock log) m tally) log ns in
      (
        step _ _ _ _ _ c (insert_if (counts_as_configured m) m.meta.namespace ns tally.configured),
        step _ _ _ _ _ u (insert_if (counts_as_up_to_date m) m.meta.namespace ns tally.up_to_date),
        step _ _ _ _ _ t (insert_if (is_deleting m) m.meta.namespace ns tally.terminating),
      )

  -- In the status that a reconciliation writes, where sorting keeps a set's elements: a namespace is
  -- listed as configured exactly if a member in it that is not being deleted refers to the mesh and
  -- has a Reconciled condition that is True; as terminating exactly if a member in it is being
  -- deleted; as a member exactly if it is known; and as pending exactly if it is known, no member in
  -- it is being deleted, and no configured member in it has the version of the mesh.
  pub has-summed_status :
      IsSorting env
      → (members : List Member) (known : List String) (statuses : StatusMap) (status : RollStatus)
        (log : List Call) (ns : String)
      → let tally = (count_members env mesh members (empty_tally statuses) log).0 in
        let written = summed_status env mesh known tally status in
        (has ns written.configured_members ≡ some_member counts_as_configured ns members)
        × (has ns written.terminating_members ≡ some_member is_deleting ns members)
        × (has ns written.members ≡ has ns known)
        × (has ns written.pending_members ≡ (
            has ns known
            && (not (some_member counts_as_up_to_date ns members)
                && not (some_member is_deleting ns members))))
  unfolding summed_status empty_tally has
  has-summed_status sorting members known statuses status log ns =
      let tally = (count_members env mesh members (empty_tally statuses) log).0 in
      let (c, u, t) = count_members_from members (empty_tally statuses) log ns in
      (
        sorting.has-sorted ns tally.configured ∙ c ∙ or_false _,
        sorting.has-sorted ns tally.terminating ∙ t ∙ or_false _,
        sorting.has-sorted ns known,
        sorting.has-sorted ns (difference (difference known tally.up_to_date) tally.terminating)
            ∙ has-difference ns (difference known tally.up_to_date) tally.terminating
            ∙ pending_lem (has ns known) _ _ _ _ _ (has-difference ns known tally.up_to_date)
                (u ∙ or_false _) (t ∙ or_false _),
      )
