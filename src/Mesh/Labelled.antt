-- ===== src/Mesh/Labelled.antt =====
-- How the labels that an object is applied with decide whether it is pruned.
use istio_operator.Prelude.{
  ◌≡◌, ◌≢◌, ◌↔◌, false, String, [], ◌∷◌, Option, none, some, lookup-insert, ◌==◌, ap, sym, ◌∙◌,
}
use istio_operator.Kube.{ObjectMeta}
use istio_operator.Common.{
  get_label, set_labels, insert_all, owner_key, owner_name_key, kubernetes_app_version_key, find,
}
use istio_operator.Mesh.Pruning.{kubernetes_app_managed_by_key, kubernetes_app_managed_by_value}
use istio_operator.Mesh.Labelling.{Processor, add_metadata}
use istio_operator.Mesh.Stale.{IsStale}
use istio_operator.Mesh.Controller.{enqueue_request_for_smcp}

of_some : String → Option String → String
of_some d none = d
of_some d (some s) = s

some_lem : (a b : String) → some a ≡ some b → a ≡ b
unfolding of_some
some_lem a b h = ap (of_some a) h

label_of :
    (p : Processor) (obj : ObjectMeta) (component : String)
    → (get_label (add_metadata p obj component) kubernetes_app_managed_by_key
        ≡ some kubernetes_app_managed_by_value)
      × (get_label (add_metadata p obj component) owner_key ≡ some p.owner.namespace)
      × (get_label (add_metadata p obj component) kubernetes_app_version_key ≡ some p.app_version)
unfolding add_metadata get_label find set_labels insert_all
label_of p obj component = (simp lookup-insert, simp lookup-insert, simp lookup-insert)

-- An object that was labelled for a generation of a mesh is one that pruning may delete exactly when
-- the mesh's namespace is the one that is pruned and the generation is not: what is applied for a
-- generation survives the pruning for that generation, and goes with every other.
pub add_metadata-IsStale :
    (p : Processor) (obj : ObjectMeta) (component mesh_namespace generation : String)
    → IsStale mesh_namespace generation (add_metadata p obj component)
      ↔ ((p.owner.namespace ≡ mesh_namespace) × (p.app_version ≢ generation))
add_metadata-IsStale p obj component mesh_namespace generation = (
  λ stale. (
    some_lem _ _ (sym (label_of p obj component).1 ∙ stale.owned),
    λ e. stale.other_version ((label_of p obj component).2 ∙ ap some e),
  ),
  λ (owned, other). record {
    managed = (label_of p obj component).0;
    owned = (label_of p obj component).1 ∙ ap some owned;
    other_version = λ e. other (some_lem _ _ (sym (label_of p obj component).2 ∙ e));
  },
)

owner_name_of :
    (p : Processor) (obj : ObjectMeta) (component : String)
    → get_label (add_metadata p obj component) owner_name_key ≡ some p.owner.name
unfolding add_metadata get_label find set_labels insert_all
owner_name_of p obj component = simp lookup-insert

enqueue_lem :
    (o : ObjectMeta) (ns name : String)
    → get_label o kubernetes_app_managed_by_key ≡ some kubernetes_app_managed_by_value
    → get_label o owner_key ≡ some ns
    → get_label o owner_name_key ≡ some name
    → (ns == "") ≡ false
    → (name == "") ≡ false
    → enqueue_request_for_smcp o.labels ≡ record { namespace = ns; name = name } ∷ []
unfolding enqueue_request_for_smcp get_label
enqueue_lem o ns name a b c n m = rw (a, b, c, n, m)

-- An event of an object that was applied for a mesh is mapped to a reconciliation of that mesh, if
-- the mesh's namespace and name are not empty.
pub enqueue_request-add_metadata :
    (p : Processor) (obj : ObjectMeta) (component : String)
    → (p.owner.namespace == "") ≡ false
    → (p.owner.name == "") ≡ false
    → enqueue_request_for_smcp (add_metadata p obj component).labels ≡ p.owner ∷ []
enqueue_request-add_metadata p obj component n m =
    enqueue_lem _ _ _ (label_of p obj component).0 (label_of p obj component).1
      (owner_name_of p obj component) n m
