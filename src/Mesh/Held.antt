-- ===== src/Mesh/Held.antt =====
-- The reconcilers that ControlPlaneReconciler keeps (pkg/controller/servicemesh/controlplane/controller.go),
-- over any sequence of reconciliations.
use istio_operator.Prelude.{
  ℕ, ◌≡◌, refl, Bool, true, false, String, List, [], ◌∷◌, Option, none, some, All, ap, sym, ◌∙◌,
  is_some, nat_eq, arith, Bool-cases, inl, inr,
}
use istio_operator.Prog.Returns.{
  Returns, Returns-pure, Returns-bind, Returns-when, Returns-on_result, Returns-on_error,
}
use istio_operator.Prog.Answered.{Returns-known}
use istio_operator.Kube.{NamespacedName}
use istio_operator.Mesh.Objects.{Mesh}
use istio_operator.Mesh.Calls.{MeshEnv, MeshCall}
use istio_operator.Mesh.Posting.{current_reconciled_version}
use istio_operator.Mesh.Installation.{Instance}
use istio_operator.Mesh.Reconciler.{set_instance}
use istio_operator.Mesh.Preparation.{is_finished, skip_until_synced}
use istio_operator.Mesh.Deleter.{
  finalizer_failure, remove_mesh_finalizer, deletion_failure, delete_instance,
}
use istio_operator.Mesh.Controller.{
  Reconcilers, same_key, lookup_key, delete_key, put_key, new_instance, get_or_create,
  reconcile_mesh, keep, reconcile_now, reconcile_request, reconcile,
}
use istio_operator.Mesh.Stale.{IsSelecting}
use istio_operator.Mesh.Reconciling.{IsKept}
use istio_operator.Mesh.Prepared.{RendersAll, reconcile_instance-Runs}
use istio_operator.Mesh.Writes.{permits, prepares}

module _ {E : Type 0} (env : MeshEnv E) where
  -- What is rendered is to be labelled with the version of the mesh's generation.
  pub record IsHeld (r : Instance) : Type 0 where
    pub held :
        is_some r.renderings ≡ true
        → r.mesh_generation ≡ current_reconciled_version env r.mesh.meta.generation

  pub IsKept-of :
      (r : Instance)
      → IsHeld r
      → IsKept env r.mesh.meta.namespace (current_reconciled_version env r.mesh.meta.generation) r
  IsKept-of r h = record { kept_namespace = refl; kept_generation = refl; kept_labelling = h.held }

  IsHeld-of : {ns generation : String} (r : Instance) → IsKept env ns generation r → IsHeld r
  IsHeld-of r h = record { held = λ e. h.kept_labelling e ∙ sym h.kept_generation }

  IsHeldResult : {A : Type 0} → Instance × A → Type 0
  IsHeldResult (r, a) = IsHeld r

  same-IsHeld :
      (r s : Instance)
      → s.mesh.meta.generation ≡ r.mesh.meta.generation
      → s.mesh_generation ≡ r.mesh_generation
      → s.renderings ≡ r.renderings
      → IsHeld r
      → IsHeld s
  same-IsHeld r s m g d h = record {
    held = λ e.
        g ∙ h.held (ap is_some (sym d) ∙ e) ∙ ap (λ n. current_reconciled_version env n) (sym m);
  }

  nothing-IsHeld : (r : Instance) → r.renderings ≡ none → IsHeld r
  nothing-IsHeld r d = record { held = λ e. not_both (ap is_some d) e }
    where
      not_both : {A : Type 0} {b : Bool} → b ≡ false → b ≡ true → A
      not_both e f = cc

  set_instance-IsHeld :
      (mesh : Mesh) (r : Instance) → IsHeld r → Returns IsHeld (set_instance env mesh r)
  unfolding set_instance
  set_instance-IsHeld mesh r h =
      Returns-when _ _ _ (λ e. Returns-pure _ (same-IsHeld r _ (same_number e) refl refl h))
        (λ _. Returns-bind _ _ (λ s. Returns-pure _ (nothing-IsHeld _ refl)))
    where
      same_number : {m n : ℕ} → nat_eq m n ≡ true → m ≡ n
      same_number e = ground arith

  skip_until_synced-IsHeld : (r : Instance) → IsHeld r → Returns IsHeld (skip_until_synced env r)
  unfolding skip_until_synced
  skip_until_synced-IsHeld r h =
      Returns-bind _ _ (λ t. Returns-pure _ (same-IsHeld r _ refl refl refl h))

  delete_instance-IsHeld : (r : Instance) → IsHeld r → Returns IsHeldResult (delete_instance env r)
  unfolding delete_instance deletion_failure remove_mesh_finalizer finalizer_failure IsHeldResult
  delete_instance-IsHeld r h =
      Returns-when _ _ _
        (λ _. Returns-bind _ _ (λ s.
          Returns-bind _ _
            (λ t. Returns-bind _ _ (λ (u, e). Returns-pure _ (same-IsHeld r _ refl refl refl h)))))
        (λ _. Returns-bind _ _ (λ failed.
          Returns-on_error failed _ _
            (λ e _.
              Returns-bind _ _ (λ s.
                Returns-bind _ _ (λ (u, x). Returns-pure _ (same-IsHeld r _ refl refl refl h))))
            (λ _. Returns-bind _ _ (λ s. Returns-bind _ _ (λ got.
              Returns-on_result got _ _
                (λ mesh _. Returns-bind _ _ (λ e.
                  Returns-on_error e _ _
                    (λ x _.
                      Returns-when _ _ _
                        (λ _.
                          Returns-bind _ _ (λ _. Returns-pure _ (same-IsHeld r _ refl refl refl h)))
                        (λ _. Returns-pure _ (same-IsHeld r _ refl refl refl h)))
                    (λ _.
                      Returns-known _ _
                        (skip_until_synced-IsHeld (record r { status = s })
                          (same-IsHeld r _ refl refl refl h))
                        (λ skipping k. Returns-pure _ k))))
                (λ e _.
                  Returns-when _ _ _
                    (λ _. Returns-bind _ _ (λ _. Returns-pure _ (same-IsHeld r _ refl refl refl h)))
                    (λ _. Returns-pure _ (same-IsHeld r _ refl refl refl h))))))))

  -- The state of the controller in which every reconciler is held so.
  abbrev pub AreHeld : Reconcilers → Type 0
  AreHeld state = All (λ (entry : NamespacedName × Instance). IsHeld entry.1) state.instances

  HeldOption : Option Instance → Type 0
  HeldOption none = Unit {0}
  HeldOption (some r) = IsHeld r

  lookup_key-IsHeld :
      (k : NamespacedName) (entries : List (NamespacedName × Instance))
      → All (λ (entry : NamespacedName × Instance). IsHeld entry.1) entries
      → HeldOption (lookup_key k entries)
  unfolding lookup_key HeldOption
  lookup_key-IsHeld k [] h = tt
  lookup_key-IsHeld k ((j, r) ∷ entries) (h, hs) = elim (Bool-cases (same_key j k)) [
    | inl e ↦ rw e h
    | inr e ↦ rw e (lookup_key-IsHeld k entries hs)
  ]

  delete_key-IsHeld :
      (k : NamespacedName) (entries : List (NamespacedName × Instance))
      → All (λ (entry : NamespacedName × Instance). IsHeld entry.1) entries
      → All (λ (entry : NamespacedName × Instance). IsHeld entry.1) (delete_key k entries)
  unfolding delete_key
  delete_key-IsHeld k [] h = tt
  delete_key-IsHeld k ((j, r) ∷ entries) (h, hs) = elim (Bool-cases (same_key j k)) [
    | inl e ↦ rw e (delete_key-IsHeld k entries hs)
    | inr e ↦ rw e (h, delete_key-IsHeld k entries hs)
  ]

  keep-AreHeld :
      (key : NamespacedName) (state : Reconcilers) (r : Instance)
      → AreHeld state
      → IsHeld r
      → AreHeld (keep env key state r)
  unfolding keep put_key
  keep-AreHeld key state r h k = elim (Bool-cases (is_finished r)) [
    | inl e ↦ rw e (delete_key-IsHeld key state.instances h)
    | inr e ↦ rw e (k, delete_key-IsHeld key state.instances h)
  ]

  get_or_create-IsHeld :
      (o : Option Instance) (mesh : Mesh) → HeldOption o → Returns IsHeld (get_or_create env o mesh)
  unfolding get_or_create HeldOption new_instance
  get_or_create-IsHeld none mesh h = Returns-pure _ (nothing-IsHeld _ refl)
  get_or_create-IsHeld (some r) mesh h =
      Returns-known _ _ (set_instance-IsHeld mesh r h)
        (λ renewed k. Returns-pure _ (same-IsHeld renewed _ refl refl refl k))

  reconcile_mesh-IsHeld :
      IsSelecting env
      → RendersAll env
      → (mesh : Mesh) (r : Instance) → IsHeld r
      → Returns (λ result. IsHeld result.0) (reconcile_mesh env mesh r)
  unfolding reconcile_mesh IsHeldResult
  reconcile_mesh-IsHeld selecting renders mesh r h =
      Returns-when _ _ _
        (λ _.
          Returns-when _ _ _ (λ _. Returns-pure _ h)
            (λ _. Returns-known _ _ (delete_instance-IsHeld r h) (λ (s, e) k. Returns-pure _ k)))
        (λ _.
          Returns-when _ _ _ (λ _. Returns-bind _ _ (λ e. Returns-pure _ h))
            (λ _.
              Returns-when _ _ _
                (λ _. Returns-bind _ _ (λ (s, e).
                  Returns-on_error e _ _ (λ x _. Returns-pure _ (same-IsHeld r _ refl refl refl h))
                    (λ _.
                      Returns-bind _ _
                        (λ (n, x). Returns-pure _ (same-IsHeld r _ refl refl refl h)))))
                (λ _.
                  Returns-known _ _
                    (reconcile_instance-Runs env selecting renders (permits env _ _)
                      (prepares env _ _) r (IsKept-of r h)).returns
                    (λ (s, e) k. Returns-pure _ (IsHeld-of s k)))))

  reconcile_now-AreHeld :
      IsSelecting env
      → RendersAll env
      → (request : NamespacedName) (state : Reconcilers) → AreHeld state
      → Returns (λ ended. AreHeld ended.0) (reconcile_now env request state)
  unfolding reconcile_now
  reconcile_now-AreHeld selecting renders request state h = Returns-bind _ _ (λ got.
      Returns-on_result got _ _
        (λ mesh _.
          Returns-known _ _ (get_or_create-IsHeld _ mesh (lookup_key-IsHeld _ state.instances h))
            (λ r k.
              Returns-known _ _ (reconcile_mesh-IsHeld selecting renders mesh r k)
                (λ (ended, result, e) l. Returns-pure _ (keep-AreHeld _ state ended h l))))
        (λ e _. Returns-pure _ h))

  reconcile_request-AreHeld :
      IsSelecting env
      → RendersAll env
      → (earliest : Option ℕ) (request : NamespacedName) (state : Reconcilers) → AreHeld state
      → Returns (λ ended. AreHeld ended.0) (reconcile_request env earliest request state)
  unfolding reconcile_request
  reconcile_request-AreHeld selecting renders none request state h =
      reconcile_now-AreHeld selecting renders request state h
  reconcile_request-AreHeld selecting renders (some t) request state h = Returns-bind _ _ (λ now.
      Returns-when _ _ _ (λ _. Returns-pure _ h)
        (λ _. reconcile_now-AreHeld selecting renders request _ h))

  -- The states that the controller reaches from the empty one, by reconciliations of any meshes, each
  -- after any calls.
  pub data Reachable : Reconcilers → Type 0 where
    initially : Reachable (record { earliest = []; instances = [] })
    after :
        {state : Reconcilers} (request : NamespacedName) (log : List MeshCall)
        → Reachable state
        → Reachable (reconcile env request state log).0.0

  -- Where the API server honours label selectors and rendering that fails renders nothing: in every
  -- state that the controller reaches, each reconciler in which something is rendered is to label it
  -- with the version of its mesh's own generation.
  pub Reachable-AreHeld :
      IsSelecting env → RendersAll env → {state : Reconcilers} → Reachable state → AreHeld state
  unfolding reconcile
  Reachable-AreHeld selecting renders initially = tt
  Reachable-AreHeld selecting renders (after {state} request log reached) =
      (reconcile_request-AreHeld selecting renders (lookup_key request state.earliest) request state
          (Reachable-AreHeld selecting renders reached)).at
        log
