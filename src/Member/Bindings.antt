-- ===== src/Member/Bindings.antt =====
-- Which role bindings reconcileRoleBindings creates in the namespace of a member
-- (pkg/controller/servicemesh/member/namespace_reconciler.go).
use istio_operator.Prelude.{
  Bool, false, not, ◌&&◌, ◌||◌, ◌≡◌, refl, String, List, [], ◌∷◌, none, has, ◌==◌, arith,
  Bool-cases, inl, inr, has-set_insert,
}
use istio_operator.Prog.{pure, ◌>>=◌, on_error, when}
use istio_operator.Kube.{Env, Call, call, RoleBinding, create_role_binding}
use istio_operator.Member.Cleanup.{copied_meta}
use istio_operator.Member.RoleBindings.{add_role_bindings}

-- Whether a role binding of that name is to be copied: one that does not refer to a Role, and whose
-- name is not among the existing ones.
unfoldable pub is_copied : List String → String → List RoleBinding → Bool
is_copied existing name [] = false
is_copied existing name (rb ∷ rbs) =
    (rb.meta.name == name && (not (rb.role_ref_kind == "Role") && not (has rb.meta.name existing)))
    || is_copied existing name rbs

module _ {E : Type 0} (env : Env E) where
  open env use {reply}

  -- Every role binding that is to be created is.
  abbrev pub CreatesBindings : Type 0
  CreatesBindings = (log : List Call) (rb : RoleBinding) → reply log (create_role_binding rb) ≡ none

  -- Where every creation succeeds, the first loop of reconcileRoleBindings ends without errors, and
  -- the names that it reports as added are exactly those of the mesh's role bindings that do not
  -- refer to a Role and that the namespace does not have.
  pub has-add_role_bindings :
      CreatesBindings
      → (mesh_namespace namespace : String) (existing : List String) (rbs : List RoleBinding)
        (log : List Call)
      → let (added, es) = (add_role_bindings env mesh_namespace namespace existing rbs log).0 in
        (es ≡ []) × ((name : String) → has name added ≡ is_copied existing name rbs)
  unfolding add_role_bindings ◌>>=◌ when call on_error pure is_copied has
  has-add_role_bindings accepts mesh_namespace namespace existing [] log = (refl, λ name. refl)
  has-add_role_bindings accepts mesh_namespace namespace existing (rb ∷ rbs) log =
      let c = record rb { meta = copied_meta mesh_namespace namespace rb.meta } in
      let skip = rb.role_ref_kind == "Role" || has rb.meta.name existing in
      elim (Bool-cases skip) [
        | inl skipped ↦
            let (ended, names) =
              has-add_role_bindings accepts mesh_namespace namespace existing rbs log in
            rw skipped (ended, λ name. ground (arith, names name, skipped))
        | inr created ↦
            let (ended, names) =
              has-add_role_bindings accepts mesh_namespace namespace existing rbs
                (create_role_binding c ∷ log) in
            let added =
              (add_role_bindings env mesh_namespace namespace existing rbs
                (create_role_binding c ∷ log)).0.0 in
            rw (created, accepts log c)
              (
                ended,
                λ name. ground (arith, names name, created, has-set_insert rb.meta.name name added),
              )
      ]
