-- ===== src/Mesh/Reconciling.antt =====
-- The calls of Reconcile of one control plane, and the generation that its state is kept for.
use istio_operator.Prelude.{
  ◌≡◌, refl, Bool, true, false, String, List, [], ◌∷◌, Option, none, some, ap, sym, ◌∙◌, is_some,
  subst, arith,
}
use istio_operator.Prog.{Prog, pure, ◌>>=◌}
use istio_operator.Prog.Emits.{Emits, Emits-pure, Emits-result}
use istio_operator.Prog.Runs.{
  Runs, Runs-pure, Runs-bind, Runs-then, Runs-when, Runs-result, Runs-error, Runs-on_error,
}
use istio_operator.Mesh.Objects.{Mesh, Manifest}
use istio_operator.Mesh.Calls.{MeshEnv, MeshCall, ask, Emits-ask, Emits-mesh_now, process_manifests}
use istio_operator.Mesh.Posting.{current_reconciled_version}
use istio_operator.Status.{ComponentStatus}
use istio_operator.Mesh.Installation.{
  apply_manifests, process_rendered, Instance, process_component_manifests, note_installed,
  install_charts, validate_manifests,
}
use istio_operator.Mesh.Pruning.{prune}
use istio_operator.Mesh.Reconciler.{
  install_sets, end_set, wait_for_set, pause_if, and_then, complete, install,
}
use istio_operator.Mesh.Preparation.{pause_reconciliation, skip_until_synced, Step, go_on, stop}
use istio_operator.Mesh.Stale.{IsSelecting, prune-Emits}
use istio_operator.Mesh.Allowed.{
  Allows, get_smmr-Emits, event-Emits, calculate_component_readiness-Emits,
  update_component_conditions-Emits, update_control_plane_conditions-Emits,
}

module _ {E : Type 0} (env : MeshEnv E) (ns generation : String) where
  -- The state of the reconciler of the mesh in a namespace whose present generation has this
  -- version, while it installs: it labels what it applies with that version.
  pub record IsInstalling (r : Instance) : Type 0 where
    pub in_namespace : r.mesh.meta.namespace ≡ ns
    pub at_generation : current_reconciled_version env r.mesh.meta.generation ≡ generation
    pub labelling : r.mesh_generation ≡ generation

  -- The same between two calls: it labels so if there is something rendered.
  pub record IsKept (r : Instance) : Type 0 where
    pub kept_namespace : r.mesh.meta.namespace ≡ ns
    pub kept_generation : current_reconciled_version env r.mesh.meta.generation ≡ generation
    pub kept_labelling : is_some r.renderings ≡ true → r.mesh_generation ≡ generation

  -- Where a part of Reconcile ends
  abbrev pub Ends : Instance × Step E → Type 0
  Ends (r, go_on) = IsInstalling r
  Ends (r, stop reason message e) = IsKept r

  pub kept : (r : Instance) → IsInstalling r → IsKept r
  kept r h = record {
    kept_namespace = h.in_namespace;
    kept_generation = h.at_generation;
    kept_labelling = λ _. h.labelling;
  }

  pub same-IsInstalling :
      (r s : Instance)
      → s.mesh ≡ r.mesh
      → s.mesh_generation ≡ r.mesh_generation
      → IsInstalling r
      → IsInstalling s
  same-IsInstalling r s m g h = record {
    in_namespace = ap (λ (x : Mesh). x.meta.namespace) m ∙ h.in_namespace;
    at_generation =
        ap (λ (x : Mesh). current_reconciled_version env x.meta.generation) m ∙ h.at_generation;
    labelling = g ∙ h.labelling;
  }

  note_installed-IsInstalling :
      (r : Instance) (chart : String) → IsInstalling r → IsInstalling (note_installed env r chart)
  unfolding note_installed
  note_installed-IsInstalling r chart =
      same-IsInstalling r (note_installed env r chart) (ground arith) (ground arith)

module _ {E : Type 0} (env : MeshEnv E) (selecting : IsSelecting env) {ns generation : String}
    {Q : MeshCall → Type 0} (allows : Allows env ns generation Q) where
  process-Emits :
      (ms : List Manifest) (component g : String)
      → g ≡ generation
      → Emits Q (ask env (process_manifests ms component g))
  process-Emits ms component g e =
      Emits-ask env (process_manifests ms component g)
        (subst (λ x. Q (process_manifests ms component x)) (sym e) (allows.of_process ms component))

  -- processComponentManifests and the loops over charts keep the state for the generation.
  apply_manifests-Runs :
      (r : Instance) (ms : List Manifest) (c : Option ComponentStatus)
      → IsInstalling env ns generation r
      → Runs Q (λ result. IsInstalling env ns generation result.0) (apply_manifests env r ms c)
  unfolding apply_manifests
  apply_manifests-Runs r ms none h = Runs-pure _ h
  apply_manifests-Runs r ms (some c) h =
      Runs-then _ _ (process-Emits ms c.resource r.mesh_generation h.labelling)
        (λ (changes, label, x).
          Runs-then _ _ (update_component_conditions-Emits env allows c x)
            (λ updated. Runs-pure _ (same-IsInstalling env ns generation r _ refl refl h)))

  process_component_manifests-Runs :
      (r : Instance) (chart : String) (ms : Option (List Manifest))
      → IsInstalling env ns generation r
      → Runs Q (λ result. IsInstalling env ns generation result.0) (process_rendered env r chart ms)
  unfolding process_rendered
  process_component_manifests-Runs r chart none h = Runs-pure _ h
  process_component_manifests-Runs r chart (some ms) h = apply_manifests-Runs r ms _ h

  install_charts-Runs :
      (r : Instance) (charts : List String) (made_changes : Bool)
      → IsInstalling env ns generation r
      → Runs Q
          (λ result. IsInstalling env ns generation result.0)
          (install_charts env r charts made_changes)
  unfolding install_charts process_component_manifests
  install_charts-Runs r [] made_changes h = Runs-pure _ h
  install_charts-Runs r (chart ∷ charts) made_changes h =
      Runs-bind _ _ (process_component_manifests-Runs r chart _ h) (λ (processed, changes, e) k.
        Runs-on_error e _ _ (λ x _. Runs-pure _ k)
          (λ _.
            install_charts-Runs (note_installed env processed chart) charts _
              (note_installed-IsInstalling env ns generation processed chart k)))

  pause_reconciliation-Runs :
      (r : Instance)
      → IsKept env ns generation r
      → Runs Q (λ step. Ends env ns generation (r, step)) (pause_reconciliation env r)
  unfolding pause_reconciliation
  pause_reconciliation-Runs r h = Runs-then _ _ (event-Emits env allows _ _ _) (λ _. Runs-pure _ h)

  pause-Runs :
      (r : Instance)
      → IsInstalling env ns generation r
      → Runs Q (Ends env ns generation) (do step ← pause_reconciliation env r; pure (r, step))
  pause-Runs r h =
      Runs-bind _ _ (pause_reconciliation-Runs r (kept env ns generation r h))
        (λ step k. Runs-pure _ k)

  pub pause_if-Runs :
      (left : List String) (r : Instance)
      → IsInstalling env ns generation r
      → Runs Q (Ends env ns generation) (pause_if env left r)
  unfolding pause_if
  pause_if-Runs [] r h = Runs-pure _ (same-IsInstalling env ns generation r _ refl refl h)
  pause_if-Runs (c ∷ cs) r h = pause-Runs _ (same-IsInstalling env ns generation r _ refl refl h)

  skip_until_synced-Runs :
      (r : Instance)
      → IsInstalling env ns generation r
      → Runs Q (IsInstalling env ns generation) (skip_until_synced env r)
  unfolding skip_until_synced
  skip_until_synced-Runs r h =
      Runs-then _ _ (Emits-mesh_now env)
        (λ t. Runs-pure _ (same-IsInstalling env ns generation r _ refl refl h))

  wait_for_set-Runs :
      (r : Instance) (made_changes : Bool) (reason message : String)
      → IsInstalling env ns generation r
      → Runs Q (Ends env ns generation) (wait_for_set env r made_changes reason message)
  unfolding wait_for_set
  wait_for_set-Runs r made_changes reason message h =
      Runs-when _ _ _
        (λ _.
          Runs-bind _ _ (skip_until_synced-Runs r h)
            (λ s k. Runs-pure _ (kept env ns generation s k)))
        (λ _.
          Runs-result _ _ _
            (calculate_component_readiness-Emits env allows r.mesh r.status.annotations)
            (λ (ready, _). pause_if-Runs _ r h) (λ _. pause-Runs r h))

  end_set-Runs :
      (r : Instance) (made_changes : Bool) (failed : Option (String × E)) (reason message : String)
      → IsInstalling env ns generation r
      → Runs Q (Ends env ns generation) (end_set env r made_changes failed reason message)
  unfolding end_set
  end_set-Runs r made_changes (some (component, e)) reason message h =
      Runs-pure _ (kept env ns generation r h)
  end_set-Runs r made_changes none reason message h =
      Runs-when _ _ _ (λ _. Runs-pure _ h) (λ _. wait_for_set-Runs r made_changes reason message h)

  pub and_then-Runs :
      (ended : Instance × Step E) (f : Instance → Prog MeshCall (Instance × Step E))
      → Ends env ns generation ended
      → ((r : Instance) → IsInstalling env ns generation r → Runs Q (Ends env ns generation) (f r))
      → Runs Q (Ends env ns generation) (and_then env ended f)
  unfolding and_then
  and_then-Runs (r, go_on) f h k = k r h
  and_then-Runs (r, stop reason message e) f h k = Runs-pure _ h

  install_sets-Runs :
      (r : Instance) (sets : List (List String)) (reason message : String)
      → IsInstalling env ns generation r
      → Runs Q (Ends env ns generation) (install_sets env r sets reason message)
  unfolding install_sets
  install_sets-Runs r [] reason message h = Runs-pure _ h
  install_sets-Runs r (charts ∷ sets) reason message h =
      Runs-bind _ _
        (install_charts-Runs _ charts false (same-IsInstalling env ns generation r _ refl refl h))
        (λ (installed, made_changes, failed) k.
          Runs-bind _ _ (end_set-Runs installed made_changes failed reason message k) (λ ended l.
            and_then-Runs ended _ l (λ next n. install_sets-Runs next sets reason message n)))

  validate_manifests-Emits : (r : Instance) → Emits Q (validate_manifests env r)
  unfolding validate_manifests
  validate_manifests-Emits r =
      Emits-result _ _ _ (get_smmr-Emits env allows _) (λ smmr. Emits-pure _) (λ e. Emits-pure _)

  complete-Runs :
      (r : Instance)
      → IsInstalling env ns generation r
      → Runs Q (Ends env ns generation) (complete env r)
  unfolding complete
  complete-Runs r h = Runs-then _ _ (event-Emits env allows _ _ _) (λ _.
      Runs-then _ _ (update_control_plane_conditions-Emits env allows _ none) (λ updated.
        Runs-bind _ _
          (skip_until_synced-Runs (record r { status = updated })
            (same-IsInstalling env ns generation r _ refl refl h))
          (λ skipping k. Runs-pure _ (kept env ns generation skipping k))))

  prune_for :
      (r : Instance)
      → IsInstalling env ns generation r
      → Emits Q (prune env r.mesh.meta.namespace r.mesh_generation)
  prune_for r h = rw (h.in_namespace, h.labelling) (prune-Emits env selecting allows.of_prune)

  pub install-Runs :
      (r : Instance) (reason message : String)
      → IsInstalling env ns generation r
      → Runs Q (Ends env ns generation) (install env r reason message)
  unfolding install
  install-Runs r reason message h =
      Runs-error _ _ _ (validate_manifests-Emits r) (λ e. Runs-pure _ (kept env ns generation r h))
        (Runs-bind _ _ (install_sets-Runs r _ reason message h) (λ installed k.
          and_then-Runs installed _ k (λ done l. Runs-then _ _ (event-Emits env allows _ _ _) (λ _.
            Runs-error _ _ _ (prune_for done l) (λ e. Runs-pure _ (kept env ns generation done l))
              (complete-Runs done l)))))
