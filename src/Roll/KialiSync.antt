-- ===== src/Roll/KialiSync.antt =====
-- reconcileKiali and the membership tests of the member roll controller
-- (pkg/controller/servicemesh/memberroll/controller.go).
use istio_operator.Prelude.{
  Bool, true, false, not, ◌&&◌, ◌||◌, ◌≡◌, refl, sym, ◌∙◌, String, List, [], ◌∷◌, none, some, has,
  ◌==◌, eq_iff, eq_refl, arith, new_set, has-new_set, if◌then◌else◌, Bool-cases, inl, inr, subst,
}
use istio_operator.Prog.{ok, pure, ◌>>=◌, on_result, when}
use istio_operator.Kube.{Env, Call, call, get_kiali, IsSorting, Namespace, MemberRoll}
use istio_operator.Roll.Kiali.{contains_all, set_equal, is_up_to_date, reconcile_kiali}
use istio_operator.Roll.Membership.{
  cluster_members, is_cluster_scoped, is_excluded_namespace, is_member,
}

contains_all_of :
    (s t : List String) → ((x : String) → has x t ≡ true → has x s ≡ true) → contains_all s t ≡ true
unfolding contains_all has
contains_all_of s [] h = refl
contains_all_of s (x ∷ xs) h =
    let here : has x s ≡ true = h x (ground (arith, eq_refl x)) in
    let rest = contains_all_of s xs (λ y hy. h y (ground arith)) in ground arith

module _ {E : Type 0} (env : Env E) where
  settled :
      IsSorting env
      → (wanted : List String) → is_up_to_date wanted (some (env.sorted (new_set wanted))) ≡ true
  unfolding is_up_to_date set_equal
  settled sorting wanted =
      let written = env.sorted (new_set wanted) in
      let same : (x : String) → has x (new_set written) ≡ has x (new_set wanted) =
        λ x. has-new_set x written ∙ sorting.has-sorted x (new_set wanted) in
      let there = contains_all_of (new_set wanted) (new_set written) (λ x h. sym (same x) ∙ h) in
      let back = contains_all_of (new_set written) (new_set wanted) (λ x h. same x ∙ h) in
      ground arith

  -- Where sorting keeps a set's elements, and the Kiali resource holds what a patch by
  -- reconcileKiali with the same arguments wrote, reconcileKiali reads the resource, makes no other
  -- call and ends without an error.
  pub reconcile_kiali_settled :
      IsSorting env
      → (name namespace : String) (accessible excluded : List String) (log : List Call)
      → env.reply log (get_kiali (record { namespace = namespace; name = name }))
        ≡ ok (record {
          accessible_namespaces = some (env.sorted (new_set accessible));
          excluded_namespaces = some (env.sorted (new_set excluded));
        })
      → reconcile_kiali env name namespace accessible excluded log
        ≡ (none, get_kiali (record { namespace = namespace; name = name }) ∷ log)
  unfolding reconcile_kiali call ◌>>=◌ on_result when pure
  reconcile_kiali_settled sorting name namespace accessible excluded log answer =
      rw (answer, settled sorting accessible, settled sorting excluded) refl

-- Whether a namespace of that name is listed.
unfoldable pub exists : String → List Namespace → Bool
exists ns [] = false
exists ns (n ∷ nss) = n.meta.name == ns || exists ns nss

module _ {E : Type 0} (env : Env E) where
  -- A namespace is wanted as a member of a cluster-scoped roll exactly if it exists, is not the
  -- mesh's own, and is not excluded.
  pub has-cluster_members :
      (mesh_namespace ns : String) (nss : List Namespace)
      → has ns (cluster_members env mesh_namespace nss)
        ≡ (exists ns nss && (not (ns == mesh_namespace) && not (is_excluded_namespace env ns)))
  unfolding cluster_members has exists
  has-cluster_members mesh_namespace ns [] = refl
  has-cluster_members mesh_namespace ns (n ∷ nss) =
      let rest = has-cluster_members mesh_namespace ns nss in
      elim (Bool-cases (n.meta.name == ns)) [
        | inl same ↦
            let name : n.meta.name ≡ ns = (eq_iff n.meta.name ns).0 same in
            subst
              (λ k.
                has ns (
                  if not (k == mesh_namespace) && not (is_excluded_namespace env k)
                  then k ∷ cluster_members env mesh_namespace nss
                  else cluster_members env mesh_namespace nss)
                ≡ ((k == ns || exists ns nss)
                    && (not (ns == mesh_namespace) && not (is_excluded_namespace env ns))))
              (sym name) (ground (arith, rest, eq_refl ns))
        | inr other ↦ ground (arith, rest, other)
      ]

  -- A namespace that a reconciliation of a cluster-scoped roll wants as a member is one whose events
  -- are mapped to that roll.
  pub is_member-cluster_members :
      (roll : MemberRoll) (mesh_namespace ns : String) (nss : List Namespace)
      → is_cluster_scoped roll.members ≡ true
      → has ns (cluster_members env mesh_namespace nss) ≡ true
      → is_member env ns roll ≡ true
  unfolding is_member
  is_member-cluster_members roll mesh_namespace ns nss scoped wanted =
      ground (arith, has-cluster_members mesh_namespace ns nss)
