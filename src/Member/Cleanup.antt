-- ===== src/Member/Cleanup.antt =====
-- Parts that the networking strategies and the namespace reconciler of
-- pkg/controller/servicemesh/member share.
use istio_operator.Prelude.{String, List, [], ◌∷◌, ◌++◌, Option, none, some, if◌then◌else◌}
use istio_operator.Prog.{Prog, pure, ◌>>=◌}
use istio_operator.Kube.{ObjectMeta, Env, Call}
use istio_operator.Common.{
  member_of_key, owner_key, owner_name_key, kubernetes_app_version_key, set_label, delete_label,
}

-- removeLabelsUsedByPruner
unfoldable pub remove_labels_used_by_pruner : ObjectMeta → ObjectMeta
remove_labels_used_by_pruner o =
    delete_label (delete_label (delete_label o owner_key) owner_name_key) kubernetes_app_version_key

-- The metadata of an object of the mesh's namespace that is copied to a member's namespace.
unfoldable pub copied_meta : String → String → ObjectMeta → ObjectMeta
unfolding remove_labels_used_by_pruner
copied_meta mesh_namespace namespace o = remove_labels_used_by_pruner (
    set_label
      (record {
        name = o.name;
        namespace = namespace;
        labels = o.labels;
        annotations = o.annotations;
        finalizers = [];
        deletion_timestamp = none;
        generation = 0;
      })
      member_of_key mesh_namespace)

module _ {E : Type 0} (env : Env E) where
  open env use {errors}

  -- `if err != nil && !IsNotFound(err) { allErrors = append(allErrors, err) }`
  unfoldable pub delete_error : Option E → List E
  delete_error none = []
  delete_error (some e) = if errors.is_not_found e then [] else e ∷ []

  -- Deletes each item, and goes on after an error. A loop over a set of names runs in the order of
  -- the list, which is one of those that Go may choose.
  unfoldable pub delete_each :
      {A : Type 0} → (A → Prog Call (Option E)) → List A → Prog Call (List E)
  unfolding delete_error
  delete_each delete [] = pure []
  delete_each delete (x ∷ xs) = do
    e ← delete x
    es ← delete_each delete xs
    pure (delete_error e ++ es)
