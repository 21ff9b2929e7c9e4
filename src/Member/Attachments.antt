-- ===== src/Member/Attachments.antt =====
-- NetworkAttachmentDefinitions of a member's namespace
-- (pkg/controller/servicemesh/member/namespace_reconciler.go).
use istio_operator.Prelude.{
  Bool, false, ◌||◌, String, List, [], ◌∷◌, ◌++◌, Option, none, some, ◌==◌, if◌then◌else◌, concat,
}
use istio_operator.Prog.{Prog, pure, ◌>>=◌, on_result, when}
use istio_operator.Kube.{Env, Call, call, NetworkAttachment, list_nads, create_nad, delete_nad}
use istio_operator.Common.{member_of_key, set_label}
use istio_operator.Member.Cleanup.{delete_each}

module _ {E : Type 0} (env : Env E) where
  open env use {errors}

  delete_nad_of : NetworkAttachment → Prog Call (Option E)
  delete_nad_of nad = call env (delete_nad nad.meta.namespace nad.meta.name)

  -- The names of a list of NetworkAttachmentDefinitions, and the list without a name.
  unfoldable pub has_nad : String → List NetworkAttachment → Bool
  has_nad name [] = false
  has_nad name (nad ∷ nads) = nad.meta.name == name || has_nad name nads

  unfoldable pub other_nads : String → List NetworkAttachment → List NetworkAttachment
  other_nads name [] = []
  other_nads name (nad ∷ nads) =
      let rest = other_nads name nads in if nad.meta.name == name then rest else nad ∷ rest

  -- The NetworkAttachmentDefinition that is created.
  unfoldable pub new_nad : String → String → String → NetworkAttachment
  new_nad mesh_namespace namespace name = record {
    meta =
        set_label
          (record {
            name = name;
            namespace = namespace;
            labels = none;
            annotations = none;
            finalizers = [];
            deletion_timestamp = none;
            generation = 0;
          })
          member_of_key mesh_namespace;
  }

  create_nad_errors : String → String → Option E → List E
  create_nad_errors namespace name none = []
  create_nad_errors namespace name (some e) =
      errors.wrap
        (concat ("could not create NetworkAttachmentDefinition " ∷ namespace ∷ "/" ∷ name ∷ [])) e
      ∷ []

  list_nads_error : String → E → Option E
  list_nads_error namespace e =
      if errors.is_no_match e
      then none
      else some (
          errors.wrap
            (concat (
              "could not list NetworkAttachmentDefinition resources in member namespace "
              ∷ namespace ∷ []))
            e)

  -- addNetworkAttachmentDefinition
  unfoldable pub add_network_attachment_definition : String → String → String → Prog Call (Option E)
  unfolding delete_nad_of has_nad other_nads create_nad_errors list_nads_error
  add_network_attachment_definition mesh_namespace namespace name = do
    listed ← call env (list_nads namespace member_of_key mesh_namespace)
    on_result listed
        (λ found. do
          es ← delete_each env delete_nad_of (other_nads name found)
          when (has_nad name found) (pure (errors.new_aggregate es)) (do
            e ← call env (create_nad (new_nad mesh_namespace namespace name))
            pure (errors.new_aggregate (es ++ create_nad_errors namespace name e))))
        (λ e. pure (list_nads_error namespace e))

  -- removeNetworkAttachmentDefinition
  unfoldable pub remove_network_attachment_definition : String → String → Prog Call (Option E)
  unfolding delete_nad_of list_nads_error
  remove_network_attachment_definition mesh_namespace namespace = do
    listed ← call env (list_nads namespace member_of_key mesh_namespace)
    on_result listed
        (λ found. do es ← delete_each env delete_nad_of found; pure (errors.new_aggregate es))
        (λ e. pure (list_nads_error namespace e))
