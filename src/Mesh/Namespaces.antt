-- ===== src/Mesh/Namespaces.antt =====
-- pkg/controller/servicemesh/controlplane/namespace_labels.go: the labels of a mesh's namespace.
use istio_operator.Prelude.{
  Bool, true, false, String, [], ◌∷◌, Option, none, some, Map, lookup, insert, delete, is_some,
  ◌==◌, if◌then◌else◌,
}
use istio_operator.Prog.{Prog, pure, ◌>>=◌, on_result, when}
use istio_operator.Common.{member_of_key, or_new}
use istio_operator.Mesh.Calls.{MeshEnv, MeshCall, ask, get_mesh_namespace, update_mesh_namespace}

abbrev pub ignore_namespace_key : String
ignore_namespace_key = "maistra.io/ignore-namespace"

abbrev pub value_or_empty : Option String → String
value_or_empty none = ""
value_or_empty (some v) = v

-- The body of the loop of setNamespaceLabels: the labels, and whether an update is required
unfoldable pub set_one : String → String → Map String × Bool → Map String × Bool
set_one key new_value (labels, update_required) =
    let current = lookup key labels in
    if new_value == ""
    then (if is_some current then (delete key labels, true) else (labels, update_required))
    else (if value_or_empty current == new_value
        then (labels, update_required)
        else (insert key new_value labels, true))

unfoldable pub set_each : Map String → Map String × Bool → Map String × Bool
unfolding set_one
set_each [] state = state
set_each ((key, new_value) ∷ rest) state = set_each rest (set_one key new_value state)

module _ {E : Type 0} (env : MeshEnv E) where
  -- setNamespaceLabels
  unfoldable pub set_namespace_labels : String → Map String → Prog MeshCall (Option E)
  unfolding set_each or_new
  set_namespace_labels namespace labels = do
    got ← ask env (get_mesh_namespace namespace)
    on_result got
        (λ ns. do
          let (updated, update_required) = set_each labels (or_new ns.meta.labels, false)
          let m = ns.meta
          when update_required
              (ask env
                (update_mesh_namespace (record { meta = record m { labels = some updated } })))
              (pure none))
        (λ e. pure (some e))

  -- addNamespaceLabels
  unfoldable pub add_namespace_labels : String → Prog MeshCall (Option E)
  unfolding set_namespace_labels
  add_namespace_labels namespace =
      set_namespace_labels namespace
        ((ignore_namespace_key, "ignore") ∷ (member_of_key, namespace) ∷ [])

  -- removeNamespaceLabels
  unfoldable pub remove_namespace_labels : String → Prog MeshCall (Option E)
  unfolding set_namespace_labels
  remove_namespace_labels namespace =
      set_namespace_labels namespace ((ignore_namespace_key, "") ∷ (member_of_key, "") ∷ [])
