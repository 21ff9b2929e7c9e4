-- ===== src/Profiles/Applying.antt =====
-- getSMCPProfile and recursivelyApplyProfiles of pkg/controller/versions/template.go.
use istio_operator.Prelude.{
  ℕ, zero, suc, Bool, String, List, [], ◌∷◌, ◌++◌, Option, none, some, has, if◌then◌else◌, concat,
  ◌==◌,
}
use istio_operator.Prog.{Result, ok, err}
use istio_operator.Errors.{Errors}
use istio_operator.Profiles.Values.{Fields, end, merge_values}

-- v1.ControlPlaneSpec, with the fields that profiles are about. `none` is a nil HelmValues.
pub record Spec : Type 0 where
  pub version : String
  pub template : String
  pub profiles : List String
  pub istio : Option Fields
  pub three_scale : Option Fields

-- v2.ServiceMeshControlPlane: `body` stands for the rest of it.
pub record Plane : Type 0 where
  pub namespace : String
  pub version : String
  pub profiles : List String
  pub body : String

-- What a file may hold
pub data Decoded : Type 0 where
  plane_v1 : Spec → Decoded
  plane_v2 : Plane → Decoded
  other_object : Decoded

-- What the decoder returns: the object, its kind's text, and an error.
pub record Decoding (E : Type 0) : Type 0 where
  pub object : Decoded
  pub gvk : Option String
  pub error : Option E

-- What profiles are read with: ioutil.ReadFile, path.Join and strings.Contains with a slash; the
-- decoder; ConvertFrom of pkg/apis/maistra/v1; and the directories and the version of a Ver.
pub record ProfileEnv (E : Type 0) : Type 0 where
  pub errors : Errors E
  pub read_file : String → Result E String
  pub join : List String → String
  pub contains_slash : String → Bool
  pub decode : String → Decoding E
  pub convert_from : Plane → Result E Spec
  pub resource_dir : String
  pub user_templates_dir : String
  pub default_templates_dir : String
  pub version_text : String

-- HelmValues.GetContent, where a nil map is an empty one
unfoldable pub get_content : Option Fields → Fields
get_content none = end
get_content (some fs) = fs

-- The spec with a profile's values merged into it
unfoldable pub merge_profile : Spec → Spec → Spec
unfolding get_content
merge_profile smcp profile = record smcp {
  istio = some (merge_values (get_content smcp.istio) (get_content profile.istio));
  three_scale =
      some (merge_values (get_content smcp.three_scale) (get_content profile.three_scale));
}

-- The order in which the loop over the names goes
unfoldable pub reversed : List String → List String
reversed [] = []
reversed (name ∷ names) = reversed names ++ (name ∷ [])

module _ {E : Type 0} (env : ProfileEnv E) where
  open env use {errors, join}

  -- GetUserTemplatesDir and GetDefaultTemplatesDir
  unfoldable pub get_user_templates_dir : String
  get_user_templates_dir =
      if env.user_templates_dir == ""
      then join (env.resource_dir ∷ "templates" ∷ [])
      else env.user_templates_dir

  unfoldable pub get_default_templates_dir : String
  get_default_templates_dir =
      if env.default_templates_dir == ""
      then join (env.resource_dir ∷ "default-templates" ∷ env.version_text ∷ [])
      else join (env.default_templates_dir ∷ env.version_text ∷ [])

  -- The content of a profile's file, which is read from the user's directory or the default one
  unfoldable pub default_content : E → Result E String → Result E String
  default_content user_error (ok content) = ok content
  default_content user_error (err default_error) = err (
      errors.errorf (
        concat (
          "template cannot be loaded from user or default directory. Error from user: "
          ∷ errors.message user_error
          ∷ ". Error from default: "
          ∷ errors.message default_error
          ∷ [])))

  unfoldable pub user_content : String → Result E String → Result E String
  unfolding default_content get_default_templates_dir
  user_content name (ok content) = ok content
  user_content name (err e) =
      default_content e (env.read_file (join (get_default_templates_dir ∷ name ∷ [])))

  -- The switch over the decoded object
  unfoldable pub converted : List String → Result E Spec → Result E (Spec × List String)
  converted profiles (ok spec) = ok (spec, profiles)
  converted profiles (err e) = err e

  unfoldable pub profiles_of : Spec → List String
  profiles_of spec = elim spec.profiles [
    | [] ↦ if spec.template == "" then [] else spec.template ∷ []
    | p ∷ ps ↦ p ∷ ps
  ]

  unfoldable pub switch_object : String → String → Decoded → Result E (Spec × List String)
  unfolding converted profiles_of
  switch_object target_namespace gvk (plane_v1 spec) =
      ok (record spec { version = env.version_text }, profiles_of spec)
  switch_object target_namespace gvk (plane_v2 smcp) =
      converted smcp.profiles (
        env.convert_from (record smcp { version = env.version_text; namespace = target_namespace }))
  switch_object target_namespace gvk other_object =
      err (errors.errorf (concat ("unsupported ServiceMeshControlPlane version: " ∷ gvk ∷ [])))

  -- What `%s` prints for an error
  print_error : Option E → String
  print_error none = "%!s(<nil>)"
  print_error (some e) = errors.message e

  parse_failure : String → Option E → Result E (Spec × List String)
  parse_failure name e = err (
      errors.errorf
        (concat ("failed to parse profile " ∷ name ∷ " contents: " ∷ print_error e ∷ [])))

  unfoldable pub if_decoded : String → String → Decoding E → Result E (Spec × List String)
  unfolding print_error parse_failure switch_object
  if_decoded name target_namespace decoding = elim decoding.error [
    | some e ↦ parse_failure name (some e)
    | none ↦ elim decoding.gvk [
      | none ↦ parse_failure name none
      | some gvk ↦ switch_object target_namespace gvk decoding.object
    ]
  ]

  unfoldable pub if_read : String → String → Result E String → Result E (Spec × List String)
  unfolding if_decoded
  if_read name target_namespace (ok content) = if_decoded name target_namespace (env.decode content)
  if_read name target_namespace (err e) = err e

  -- getSMCPProfile: the profile and the names of the profiles that it includes
  unfoldable pub get_smcp_profile : String → String → Result E (Spec × List String)
  unfolding user_content if_read get_user_templates_dir
  get_smcp_profile name target_namespace =
      if env.contains_slash name
      then err (errors.errorf "profile name contains invalid character '/'")
      else if_read name target_namespace
          (user_content name (env.read_file (join (get_user_templates_dir ∷ name ∷ []))))

  -- The spec, and the error
  abbrev Applied : Type 0
  Applied = Spec × Option E

  -- What follows the profiles that a profile includes
  unfoldable pub after_included : (Spec → Option Applied) → Applied → Option Applied
  after_included rest (smcp, some e) = some (smcp, some e)
  after_included rest (smcp, none) = rest smcp

  -- What follows the reading of a profile: the included ones, which `included` applies, and the rest
  unfoldable pub apply_profile :
      (Spec → List String → Option Applied)
      → (Spec → Option Applied)
      → Spec
      → Result E (Spec × List String)
      → Option Applied
  unfolding merge_profile after_included
  apply_profile included rest smcp (err e) = some (smcp, some e)
  apply_profile included rest smcp (ok (profile, profiles)) =
      elim (included (merge_profile smcp profile) profiles) [
        | none ↦ none
        | some applied ↦ after_included rest applied
      ]

  -- The loop, over the names from the last one to the first
  unfoldable pub apply_loop :
      (Spec → List String → Option Applied)
      → String
      → List String
      → List String
      → Spec
      → Option Applied
  unfolding apply_profile
  apply_loop included target_namespace visited [] smcp = some (smcp, none)
  apply_loop included target_namespace visited (name ∷ names) smcp =
      let rest = apply_loop included target_namespace visited names in
      if has name visited
      then rest smcp
      else apply_profile included rest smcp (get_smcp_profile name target_namespace)

  -- recursivelyApplyProfiles; `none` where the fuel, which bounds the depth of inclusion, is used up.
  -- The set of visited profiles is passed on as it is.
  unfoldable pub recursively_apply_profiles :
      ℕ → String → List String → Spec → List String → Option Applied
  unfolding apply_loop reversed
  recursively_apply_profiles zero target_namespace visited smcp profiles = none
  recursively_apply_profiles (suc fuel) target_namespace visited smcp profiles =
      apply_loop (recursively_apply_profiles fuel target_namespace visited) target_namespace visited
        (reversed profiles) smcp
