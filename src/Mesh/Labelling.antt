-- ===== src/Mesh/Labelling.antt =====
-- addMetadata of pkg/controller/common/helm/manifestprocessing.go: the labels of an object that is
-- applied for a generation of a mesh.
use istio_operator.Prelude.{String, [], ◌∷◌}
use istio_operator.Kube.{NamespacedName, ObjectMeta}
use istio_operator.Common.{owner_key, owner_name_key, kubernetes_app_version_key, set_labels}
use istio_operator.Mesh.Pruning.{kubernetes_app_managed_by_key, kubernetes_app_managed_by_value}

abbrev pub kubernetes_app_component_key : String
kubernetes_app_component_key = "app.kubernetes.io/component"

-- ManifestProcessor's appInstance, appVersion and owner
pub record Processor : Type 0 where
  pub app_instance : String
  pub app_version : String
  pub owner : NamespacedName

-- addMetadata, of an object of a component
unfoldable pub add_metadata : Processor → ObjectMeta → String → ObjectMeta
unfolding set_labels
add_metadata p obj component = set_labels obj (
    ("app.kubernetes.io/name", component)
    ∷ ("app.kubernetes.io/instance", p.app_instance)
    ∷ (kubernetes_app_version_key, p.app_version)
    ∷ (kubernetes_app_component_key, component)
    ∷ ("app.kubernetes.io/part-of", "istio")
    ∷ (kubernetes_app_managed_by_key, kubernetes_app_managed_by_value)
    ∷ (owner_key, p.owner.namespace)
    ∷ (owner_name_key, p.owner.name)
    ∷ [])
