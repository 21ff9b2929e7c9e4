-- ===== src/Mesh/Reconciler.antt =====
-- controlPlaneInstanceReconciler of pkg/controller/servicemesh/controlplane/reconciler.go: the
-- reconciliation of one control plane, which keeps its state between calls.
use istio_operator.Prelude.{
  Bool, true, false, not, String, List, [], ◌∷◌, Option, none, some, is_some, difference, ◌==◌,
  if◌then◌else◌, concat, nat_eq,
}
use istio_operator.Prog.{Prog, pure, ◌>>=◌, on_result, on_error, when}
use istio_operator.Status.{get_condition}
use istio_operator.Mesh.Objects.{Mesh}
use istio_operator.Mesh.Calls.{MeshEnv, MeshCall, ask, mesh_event}
use istio_operator.Mesh.Pruning.{prune}
use istio_operator.Mesh.Readiness.{calculate_component_readiness}
use istio_operator.Mesh.Conditions.{condition, with_condition, update_control_plane_conditions}
use istio_operator.Mesh.Posting.{
  post_status, is_updating, get_reconciled_version, initialize_reconcile_status,
  post_reconciliation_status,
}
use istio_operator.Mesh.Preparation.{
  skip_until_synced, pause_reconciliation, prepare, Step, go_on, stop,
}
use istio_operator.Mesh.Installation.{
  Instance, or_empty, get_charts_in_installation_order, validate_manifests, install_charts,
}

module _ {E : Type 0} (env : MeshEnv E) where
  open env use {errors, sorted, print_list}

  -- r.waitForComponents.Delete of the ready components, and the pause if some are left
  unfoldable pub pause_if : List String → Instance → Prog MeshCall (Instance × Step E)
  unfolding pause_reconciliation
  pause_if [] r = pure (record r { wait_for_components = [] }, go_on)
  pause_if (c ∷ cs) r = do
    let waiting = record r { wait_for_components = c ∷ cs }
    step ← pause_reconciliation env waiting
    pure (waiting, step)

  -- The part that runs where components are waited for
  unfoldable pub await : Instance → Prog MeshCall (Instance × Step E)
  unfolding pause_if
  await r = do
    calculated ← calculate_component_readiness env r.mesh r.status.annotations
    on_result calculated (λ (ready, _). pause_if (difference r.wait_for_components ready) r)
        (λ e. pure (
          r,
          stop "ProbeError" "Error checking component readiness"
              (some (errors.wrap "Error checking component readiness" e)),
        ))

  -- What follows the installation of a set of charts whose components are waited for
  unfoldable pub wait_for_set :
      Instance → Bool → String → String → Prog MeshCall (Instance × Step E)
  unfolding pause_if pause_reconciliation skip_until_synced
  wait_for_set r made_changes reason message =
      when made_changes
        (do skipping ← skip_until_synced env r; pure (skipping, stop reason message none))
        (do
          calculated ← calculate_component_readiness env r.mesh r.status.annotations
          on_result calculated (λ (ready, _). pause_if (difference r.wait_for_components ready) r)
              (λ _. do step ← pause_reconciliation env r; pure (r, step)))

  -- What follows the loop over the charts of a set
  unfoldable pub end_set :
      Instance → Bool → Option (String × E) → String → String → Prog MeshCall (Instance × Step E)
  unfolding wait_for_set
  end_set r made_changes (some (component, e)) reason message =
      pure (
        r,
        stop "ReconcileError" (concat ("Error processing component " ∷ component ∷ [])) (some e),
      )
  end_set r made_changes none reason message =
      when (is_empty r.wait_for_components) (pure (r, go_on))
        (wait_for_set r made_changes reason message)
    where
      is_empty : List String → Bool
      is_empty [] = true
      is_empty (c ∷ cs) = false

  unfoldable pub and_then :
      Instance × Step E
      → (Instance → Prog MeshCall (Instance × Step E))
      → Prog MeshCall (Instance × Step E)
  and_then (r, go_on) f = f r
  and_then (r, stop reason message e) f = pure (r, stop reason message e)

  -- The loop over the sets of charts
  unfoldable pub install_sets :
      Instance → List (List String) → String → String → Prog MeshCall (Instance × Step E)
  unfolding end_set and_then
  install_sets r [] reason message = pure (r, go_on)
  install_sets r (charts ∷ sets) reason message = do
    (installed, made_changes, failed) ←
        install_charts env (record r { wait_for_components = [] }) charts false
    ended ← end_set installed made_changes failed reason message
    and_then ended (λ next. install_sets next sets reason message)

  -- The reason, the message and the event of a reconciliation that succeeded
  unfoldable pub success_texts : Instance → String × String × String
  success_texts r =
      if is_updating env r.mesh
      then (
        "UpdateSuccessful",
        concat (
            "Successfully updated from version "
            ∷ get_reconciled_version env r.status
            ∷ " to version "
            ∷ r.mesh_generation
            ∷ []),
        "Updated",
      )
      else (
        "InstallSuccessful",
        concat ("Successfully installed version " ∷ r.mesh_generation ∷ []),
        "Installed",
      )

  -- The end of a reconciliation that has installed and pruned everything
  unfoldable pub complete : Instance → Prog MeshCall (Instance × Step E)
  unfolding success_texts skip_until_synced
  complete r = do
    let (reason, message, event) = success_texts r
    _ ← ask env (mesh_event "Normal" event message)
    let s = r.status
    updated ←
        update_control_plane_conditions env
          (record s {
            observed_generation = r.mesh.meta.generation;
            operator_version = env.operator_version;
            chart_version = r.chart_version;
          })
          none
    skipping ← skip_until_synced env (record r { status = updated })
    pure (skipping, stop reason message none)

  -- What follows the preparation: validation, installation, pruning
  unfoldable pub install : Instance → String → String → Prog MeshCall (Instance × Step E)
  unfolding install_sets and_then complete
  install r reason message = do
    invalid ← validate_manifests env r
    on_error invalid
        (λ e. pure (
          r,
          stop "ReconcileError" "Error validating generated manifests"
              (some (errors.wrap "Error validating generated manifests" e)),
        ))
        (do
          installed ←
              install_sets r
                (get_charts_in_installation_order env.is_istio_chart (or_empty r.renderings)
                  (env.chart_install_order r.mesh.version))
                reason message
          and_then installed (λ done. do
            _ ← ask env (mesh_event "Normal" "Pruning" "Pruning obsolete resources")
            prune_error ← prune env done.mesh.meta.namespace done.mesh_generation
            on_error prune_error
                (λ e. pure (
                  done,
                  stop "ReconcileError" "Error pruning obsolete resources"
                      (some (errors.wrap "Error pruning obsolete resources" e)),
                ))
                (complete done)))

  -- The deferred function of the part that renders: an error resets what is waited for, and is noted
  -- in the conditions
  unfoldable pub note_failure : Instance × Step E → Prog MeshCall (Instance × Step E)
  note_failure (r, go_on) = pure (r, go_on)
  note_failure (r, stop reason message none) = pure (r, stop reason message none)
  note_failure (r, stop reason message (some e)) = do
    s ← update_control_plane_conditions env r.status (some e)
    pure (record r { wait_for_components = []; status = s }, stop reason message (some e))

  -- The first branch of Reconcile, where nothing is rendered, with what follows it
  unfoldable pub start : Instance → String → String → Prog MeshCall (Instance × Step E)
  unfolding prepare and_then install note_failure
  start r reason message = do
    prepared ← prepare env r reason message
    ended ← and_then prepared (λ next. install next reason message)
    note_failure ended

  -- The second branch, with what follows it
  unfoldable pub await_any : List String → Instance → Prog MeshCall (Instance × Step E)
  unfolding await
  await_any [] r = pure (r, go_on)
  await_any (c ∷ cs) r = await r

  unfoldable pub resume : Instance → String → String → Prog MeshCall (Instance × Step E)
  unfolding await_any and_then install
  resume r reason message = do
    waited ← await_any r.wait_for_components r
    and_then waited (λ next. install next reason message)

  -- The body of Reconcile, without the deferred postReconciliationStatus
  unfoldable pub run : Instance → String → String → Prog MeshCall (Instance × Step E)
  unfolding start resume
  run r reason message =
      on_error (env.version_error r.mesh.version) (λ e. pure (r, stop reason message (some e)))
        (when (is_some r.renderings) (resume r reason message) (start r reason message))

  either_error : Option E → Option E → Option E
  either_error (some e) status_error = some e
  either_error none status_error = status_error

  -- The deferred function that posts the status
  unfoldable pub post : Instance × Step E → Prog MeshCall (Instance × Option E)
  unfolding either_error
  post (r, go_on) = pure (r, none)
  post (r, stop reason message e) = do
    (s, status_error) ← post_reconciliation_status env r.mesh r.status reason message e
    pure (record r { status = s }, either_error e status_error)

  -- Reconcile; its result never asks for another reconciliation
  unfoldable pub reconcile_instance : Instance → Prog MeshCall (Instance × Option E)
  unfolding run post
  reconcile_instance r = do
    let reconciled = get_condition "Reconciled" r.status.conditions
    when (not (reconciled.status == "False"))
        (do
          initial ← initialize_reconcile_status env r.mesh r.status
          (s, e) ← post_status env r.mesh initial
          pure (record r { status = s }, e))
        (do ended ← run r reconciled.reason reconciled.message; post ended)

  -- SetInstance
  unfoldable pub set_instance : Mesh → Instance → Prog MeshCall Instance
  set_instance new r =
      when (nat_eq new.meta.generation r.mesh.meta.generation) (pure (record r { mesh = new })) (do
        s ← with_condition env (condition "Reconciled" "Unknown" "" "") r.status
        pure (record r { mesh = new; status = s; renderings = none; wait_for_components = [] }))
