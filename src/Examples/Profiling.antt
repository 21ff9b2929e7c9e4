-- ===== src/Examples/Profiling.antt =====
-- Profiles of control planes: one that includes another.
use istio_operator.Prelude.{
  ℕ, ◌<◌, ◌≡◌, refl, Bool, true, false, String, List, [], ◌∷◌, none, some, All, arith, ◌==◌,
  if◌then◌else◌, concat, subst, ap,
}
use istio_operator.Prog.{Result, ok, err}
use istio_operator.Profiles.Values.{scalar, table, end, field}
use istio_operator.Profiles.Applying.{
  Spec, plane_v1, Decoding, ProfileEnv, get_smcp_profile, user_content, if_read,
  get_user_templates_dir, if_decoded, switch_object, profiles_of, recursively_apply_profiles,
}
use istio_operator.Profiles.Finished.{IsRanked, IsApplied, recursively_apply_profiles-IsApplied}
use istio_operator.Examples.Failures.{Failure, missing, failures}

abbrev spec_of : List String → String → Spec
spec_of profiles tag = record {
  version = "v2.3";
  template = "";
  profiles = profiles;
  istio = some (field "global" (table (field "tag" (scalar tag) end)) end);
  three_scale = none;
}

abbrev join_two : List String → String
join_two [] = ""
join_two (a ∷ []) = a
join_two (a ∷ b ∷ rest) = concat (a ∷ "/" ∷ b ∷ rest)

abbrev decoded : Bool → Decoding Failure
decoded true = record {
  object = plane_v1 (spec_of ("default" ∷ []) "small");
  gvk = some "v1";
  error = none;
}
decoded false = record { object = plane_v1 (spec_of [] "default"); gvk = some "v1"; error = none }

abbrev profile_world : ProfileEnv Failure
profile_world = record {
  errors = failures;
  read_file = λ path.
      if path == "/templates/small"
      then ok "small"
      else (if path == "/templates/default" then ok "default" else err missing);
  join = join_two;
  contains_slash = λ name. name == "/";
  decode = λ content. decoded (content == "small");
  convert_from = λ plane. err missing;
  resource_dir = "/resources";
  user_templates_dir = "/templates";
  default_templates_dir = "/defaults";
  version_text = "v2.3";
}

abbrev content_rank : Result Failure String → ℕ
content_rank (ok content) = if content == "small" then 1 else 0
content_rank (err e) = 0

abbrev content_of : String → Result Failure String
content_of name =
    user_content profile_world name
      (profile_world.read_file (join_two (get_user_templates_dir profile_world ∷ name ∷ [])))

abbrev profile_rank : String → ℕ
profile_rank name = content_rank (content_of name)

default_lowest : profile_rank "default" ≡ 0
unfolding user_content get_user_templates_dir
default_lowest = refl

names_of : Result Failure (Spec × List String) → List String
names_of (ok (profile, profiles)) = profiles
names_of (err e) = []

included_ranked :
    (name : String) (small : Bool) (profile : Spec) (profiles : List String)
    → if_decoded profile_world name "istio-system" (decoded small) ≡ ok (profile, profiles)
    → All (λ included. profile_rank included < (if small then 1 else 0)) profiles
unfolding if_decoded switch_object profiles_of names_of
included_ranked name true profile profiles h =
    subst (All (λ included. profile_rank included < 1)) (ap names_of h)
      (omega (arith, default_lowest), tt)
included_ranked name false profile profiles h =
    subst (All (λ included. profile_rank included < 0)) (ap names_of h) tt

content_ranked :
    (name : String) (slash : Bool) (e : Failure) (r : Result Failure String) (profile : Spec)
    (profiles : List String)
    → (if slash then err e else if_read profile_world name "istio-system" r)
      ≡ ok (profile, profiles)
    → All (λ included. profile_rank included < content_rank r) profiles
unfolding if_read names_of
content_ranked name true e r profile profiles h =
    subst (All (λ included. profile_rank included < content_rank r)) (ap names_of h) tt
content_ranked name false e (err x) profile profiles h =
    subst (All (λ included. profile_rank included < 0)) (ap names_of h) tt
content_ranked name false e (ok content) profile profiles h =
    included_ranked name (content == "small") profile profiles h

ranked_lem : IsRanked profile_world "istio-system" profile_rank
unfolding get_smcp_profile
ranked_lem name profile profiles h =
    content_ranked name (name == "/") _ (content_of name) profile profiles h

abbrev own_spec : Spec
own_spec = spec_of ("small" ∷ []) "own"

small_known : profile_rank "small" < 2
unfolding user_content get_user_templates_dir
small_known = omega arith

recursively_apply_profiles-IsApplied_example :
    IsApplied own_spec
      (recursively_apply_profiles profile_world 3 "istio-system" [] own_spec ("small" ∷ []))
recursively_apply_profiles-IsApplied_example =
    recursively_apply_profiles-IsApplied profile_world "istio-system" [] profile_rank ranked_lem 2
      own_spec ("small" ∷ []) (small_known, tt)
