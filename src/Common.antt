-- ===== src/Common.antt =====
-- pkg/controller/common/util.go, finalizers.go and metadata.go: labels, annotations and finalizers of
-- an object's metadata, and small helpers.
pub mod Labels
pub mod Finalizers
use istio_operator.Prelude.{
  ℕ, suc, Bool, true, false, ◌&&◌, ◌||◌, String, List, [], ◌∷◌, Option, none, some, is_some, Map,
  lookup, insert, delete, has, new_set, set_insert_all, set_insert, set_delete, ◌==◌, if◌then◌else◌,
  concat,
}
use istio_operator.Errors.{Errors}
use istio_operator.Prog.{Prog, pure, ◌>>=◌}
use istio_operator.Kube.{NamespacedName, ObjectMeta, MemberRoll, Env, Call}

-- metadata.go
abbrev pub created_by_key : String
created_by_key = "maistra.io/created-by"

abbrev pub owner_key : String
owner_key = "maistra.io/owner"

abbrev pub owner_name_key : String
owner_name_key = "maistra.io/owner-name"

abbrev pub member_of_key : String
member_of_key = "maistra.io/member-of"

abbrev pub internal_key : String
internal_key = "maistra.io/internal"

abbrev pub finalizer_name : String
finalizer_name = "maistra.io/istio-operator"

abbrev pub kubernetes_app_version_key : String
kubernetes_app_version_key = "app.kubernetes.io/version"

abbrev pub member_roll_name : String
member_roll_name = "default"

abbrev pub member_name : String
member_name = "default"

index_from : ℕ → List String → String → Option ℕ
index_from i [] s = none
index_from i (x ∷ xs) s = if x == s then some i else index_from (suc i) xs s

-- IndexOf, with `none` for -1
unfoldable pub index_of : List String → String → Option ℕ
unfolding index_from
index_of l s = index_from 0 l s

-- The maps of labels and of annotations have the same operations.
unfoldable pub find : String → Option (Map String) → Option String
find k none = none
find k (some m) = lookup k m

unfoldable pub remove : String → Option (Map String) → Option (Map String)
remove k none = none
remove k (some m) = some (delete k m)

unfoldable pub or_new : Option (Map String) → Map String
or_new none = []
or_new (some m) = m

unfoldable pub insert_all : Map String → Map String → Map String
insert_all [] m = m
insert_all ((k, v) ∷ kvs) m = insert_all kvs (insert k v m)

-- HasLabel
unfoldable pub has_label : ObjectMeta → String → Bool
unfolding find
has_label o label = is_some (find label o.labels)

-- GetLabel
unfoldable pub get_label : ObjectMeta → String → Option String
unfolding find
get_label o label = find label o.labels

-- DeleteLabel
unfoldable pub delete_label : ObjectMeta → String → ObjectMeta
unfolding remove
delete_label o label = record o { labels = remove label o.labels }

-- SetLabels
unfoldable pub set_labels : ObjectMeta → Map String → ObjectMeta
unfolding or_new insert_all
set_labels o labels = record o { labels = some (insert_all labels (or_new o.labels)) }

-- SetLabel
unfoldable pub set_label : ObjectMeta → String → String → ObjectMeta
unfolding set_labels
set_label o label value = set_labels o ((label, value) ∷ [])

-- HasAnnotation
unfoldable pub has_annotation : ObjectMeta → String → Bool
unfolding find
has_annotation o annotation = is_some (find annotation o.annotations)

-- GetAnnotation
unfoldable pub get_annotation : ObjectMeta → String → Option String
unfolding find
get_annotation o annotation = find annotation o.annotations

-- DeleteAnnotation
unfoldable pub delete_annotation : ObjectMeta → String → ObjectMeta
unfolding remove
delete_annotation o annotation = record o { annotations = remove annotation o.annotations }

-- SetAnnotation
unfoldable pub set_annotation : ObjectMeta → String → String → ObjectMeta
unfolding or_new
set_annotation o annotation value = record o {
  annotations = some (insert annotation value (or_new o.annotations));
}

-- ToNamespacedName
unfoldable pub to_namespaced_name : ObjectMeta → NamespacedName
to_namespaced_name o = record { namespace = o.namespace; name = o.name }

-- BoolToConditionStatus
unfoldable pub bool_to_condition_status : Bool → String
bool_to_condition_status true = "True"
bool_to_condition_status false = "False"

-- GetMeshNamespaces
unfoldable pub get_mesh_namespaces : String → Option MemberRoll → List String
get_mesh_namespaces control_plane_namespace smmr =
    if control_plane_namespace == ""
    then []
    else with_members (new_set (control_plane_namespace ∷ [])) smmr
  where
    with_members : List String → Option MemberRoll → List String
    with_members s none = s
    with_members s (some roll) = set_insert_all roll.status.configured_members s

-- NameSet, of the metadata of a list's items
unfoldable pub name_set : List ObjectMeta → List String
name_set [] = []
name_set (o ∷ os) = set_insert o.name (name_set os)

-- HasFinalizer
unfoldable pub has_finalizer : ObjectMeta → Bool
has_finalizer o = has finalizer_name (new_set o.finalizers)

module _ {E : Type 0} (env : Env E) where
  open env use {errors, sorted}

  -- The error that an update of finalizers ends in: an object that is gone is no error.
  unfoldable pub finalizer_error : String → ObjectMeta → Option E → Option E
  finalizer_error what o none = none
  finalizer_error what o (some e) =
      if errors.is_not_found e
      then none
      else some (errors.wrap (concat (what ∷ o.namespace ∷ "/" ∷ o.name ∷ [])) e)

  -- The metadata that RemoveFinalizer and AddFinalizer write.
  unfoldable pub without_finalizer : ObjectMeta → ObjectMeta
  without_finalizer o = record o {
    finalizers = sorted (set_delete finalizer_name (new_set o.finalizers));
  }

  unfoldable pub with_finalizer : ObjectMeta → ObjectMeta
  with_finalizer o = record o {
    finalizers = sorted (set_insert finalizer_name (new_set o.finalizers));
  }

  -- RemoveFinalizer; `update` is cl.Update of the object with the given metadata
  unfoldable pub remove_finalizer :
      ObjectMeta → (ObjectMeta → Prog Call (Option E)) → Prog Call (Option E)
  remove_finalizer o update = do
    e ← update (without_finalizer o)
    pure (finalizer_error "Could not remove finalizer from " o e)

  -- AddFinalizer
  unfoldable pub add_finalizer :
      ObjectMeta → (ObjectMeta → Prog Call (Option E)) → Prog Call (Option E)
  add_finalizer o update = do
    e ← update (with_finalizer o)
    pure (finalizer_error "Could not add finalizer to " o e)
