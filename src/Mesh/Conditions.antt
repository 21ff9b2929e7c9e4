-- ===== src/Mesh/Conditions.antt =====
-- pkg/controller/servicemesh/controlplane/status.go, and the parts of readiness.go and reconciler.go
-- that compute the status of a control plane.
use istio_operator.Prelude.{
  Bool, true, false, not, ◌&&◌, String, List, [], ◌∷◌, Option, none, some, ◌==◌, if◌then◌else◌,
  length, concat, difference, set_insert,
}
use istio_operator.Prog.{Prog, pure, ◌>>=◌, on_result, when}
use istio_operator.Status.{
  Condition, matches, get_condition, set_condition, ComponentStatus, get_annotation, set_annotation,
}
use istio_operator.Mesh.Objects.{Mesh, MeshStatus, ReadinessMap}
use istio_operator.Mesh.Calls.{MeshEnv, MeshCall, ask, mesh_now, mesh_event}
use istio_operator.Mesh.Readiness.{calculate_component_readiness}

-- status.Condition, without a time
unfoldable pub condition : String → String → String → String → Condition
condition type status reason message = record {
  type = type;
  status = status;
  reason = reason;
  message = message;
  last_transition_time = 0;
}

-- What updateReadinessStatus wants the Ready condition to be, and the event that goes with it: its
-- type and reason.
pub record Goal : Type 0 where
  pub status : String
  pub reason : String
  pub message : String
  pub event : Option (String × String)

-- Whether two slices of strings are equal
unfoldable pub same_texts : List String → List String → Bool
same_texts [] [] = true
same_texts [] (y ∷ ys) = false
same_texts (x ∷ xs) [] = false
same_texts (x ∷ xs) (y ∷ ys) = x == y && same_texts xs ys

-- reflect.DeepEqual of the readiness maps
unfoldable pub same_readiness : Option ReadinessMap → ReadinessMap → Bool
unfolding same_texts
same_readiness none r = false
same_readiness (some q) r =
    same_texts q.ready r.ready && (same_texts q.unready r.unready && same_texts q.pending r.pending)

-- The names of the components
unfoldable pub component_names : List ComponentStatus → List String → List String
component_names [] names = names
component_names (c ∷ cs) names = component_names cs (set_insert c.resource names)

module _ {E : Type 0} (env : MeshEnv E) where
  open env use {errors, sorted, print_int, print_list}

  -- r.Status.SetCondition
  unfoldable pub with_condition : Condition → MeshStatus → Prog MeshCall MeshStatus
  with_condition c s = do
    t ← mesh_now env
    pure (record s { conditions = set_condition t c s.conditions })

  -- updateConditions, of the conditions of a status
  unfoldable pub update_conditions :
      List Condition → Option E → String → Prog MeshCall (List Condition)
  unfolding condition
  update_conditions cs none message =
      when (not ((get_condition "Installed" cs).status == "True"))
        (do
          t ← mesh_now env
          u ← mesh_now env
          pure (
              set_condition u (condition "Reconciled" "True" "InstallSuccessful" message)
                (set_condition t (condition "Installed" "True" "InstallSuccessful" message) cs)))
        (do
          t ← mesh_now env
          pure (
              set_condition t
                (condition "Reconciled" "True" "ReconcileSuccessful" "Successfully reconciled") cs))
  update_conditions cs (some e) message =
      when ((get_condition "Installed" cs).status == "Unknown")
        (do
          t ← mesh_now env
          u ← mesh_now env
          pure (
              set_condition u (condition "Reconciled" "False" "InstallError" (errors.message e)) (
                set_condition t (condition "Installed" "False" "InstallError" (errors.message e))
                  cs)))
        (do
          t ← mesh_now env
          pure (
              set_condition t (condition "Reconciled" "False" "ReconcileError" (errors.message e))
                cs))

  -- updateControlPlaneConditions
  unfoldable pub update_control_plane_conditions : MeshStatus → Option E → Prog MeshCall MeshStatus
  unfolding update_conditions
  update_control_plane_conditions s e = do
    cs ← update_conditions s.conditions e "Successfully installed all mesh components"
    pure (record s { conditions = cs })

  -- updateComponentConditions
  unfoldable pub update_component_conditions :
      ComponentStatus → Option E → Prog MeshCall ComponentStatus
  unfolding update_conditions
  update_component_conditions s e = do
    cs ← update_conditions s.conditions e "Component installed successfully"
    pure (record s { conditions = cs })

  -- The Ready condition that updateReadinessStatus wants, from the components that are not ready
  unfoldable pub components_goal : List String → Goal
  components_goal [] = record {
    status = "True";
    reason = "ComponentsReady";
    message = "All component deployments are Available";
    event = some ("Normal", "Ready");
  }
  components_goal (c ∷ cs) = record {
    status = "False";
    reason = "ComponentsNotReady";
    message =
        concat (
          "The following components are not fully available: " ∷ print_list (sorted (c ∷ cs)) ∷ []);
    event = some ("Warning", "NotReady");
  }

  -- The same, from the Reconciled condition too
  unfoldable pub ready_goal : Condition → List String → Goal
  unfolding components_goal
  ready_goal reconciled unready =
      if not (reconciled.status == "True")
      then record {
        status = reconciled.status;
        reason = reconciled.reason;
        message = reconciled.message;
        event = none;
      }
      else components_goal unready

  unfoldable pub emit : Option (String × String) → String → Prog MeshCall (Unit {0})
  emit none message = pure tt
  emit (some (type, reason)) message = ask env (mesh_event type reason message)

  -- The first part of updateReadinessStatus: the Ready condition, and whether it was changed
  unfoldable pub apply_goal : Goal → MeshStatus → Prog MeshCall (MeshStatus × Bool)
  unfolding with_condition condition emit
  apply_goal goal s =
      when (matches (get_condition "Ready" s.conditions) goal.status goal.reason goal.message)
        (pure (s, false))
        (do
          changed ← with_condition (condition "Ready" goal.status goal.reason goal.message) s
          _ ← emit goal.event goal.message
          pure (changed, true))

  -- The second part: the annotation that counts, and whether it was changed
  unfoldable pub note_count : List String → MeshStatus × Bool → MeshStatus × Bool
  note_count ready (s, changed) =
      let count =
        concat (print_int (length ready) ∷ "/" ∷ print_int (length s.component_status) ∷ []) in
      if not (get_annotation "readyComponentCount" s.annotations == count)
      then (
        record s { annotations = set_annotation "readyComponentCount" count s.annotations },
        true,
      )
      else (s, changed)

  -- The readiness map of the third part
  unfoldable pub readiness_map : List String → List String → MeshStatus → ReadinessMap
  unfolding component_names
  readiness_map ready unready s = record {
    ready = sorted ready;
    unready = sorted unready;
    pending =
        sorted (difference (difference (component_names s.component_status []) ready) unready);
  }

  -- The third part: the readiness map, and whether it was changed
  unfoldable pub note_readiness : List String → List String → MeshStatus × Bool → MeshStatus × Bool
  unfolding same_readiness readiness_map
  note_readiness ready unready (s, changed) =
      let r = readiness_map ready unready s in
      if not (same_readiness s.readiness r)
      then (record s { readiness = some r }, true)
      else (s, changed)

  -- updateReadinessStatus: the status, and whether it was changed
  unfoldable pub update_readiness_status : Mesh → MeshStatus → Prog MeshCall (MeshStatus × Bool)
  unfolding condition with_condition ready_goal apply_goal note_count note_readiness
  update_readiness_status mesh s = do
    calculated ← calculate_component_readiness env mesh s.annotations
    on_result calculated
        (λ (ready, unready). do
          let goal = ready_goal (get_condition "Reconciled" s.conditions) unready
          applied ← apply_goal goal s
          pure (note_readiness ready unready (note_count ready applied)))
        (λ e. do
          let message = concat ("Error collecting ready state: " ∷ errors.message e ∷ [])
          failed ← with_condition (condition "Ready" "Unknown" "ProbeError" message) s
          _ ← ask env (mesh_event "Warning" "NotReady" message)
          pure (failed, true))
