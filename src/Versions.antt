-- ===== src/Versions.antt =====
-- pkg/controller/versions/versions.go: the versions of a control plane. The strategies
-- of the versions, which render and validate control planes, are not modelled.
pub mod Parsing
pub mod Support
use istio_operator.Prelude.{
  ℕ, ℤ, sub_ℕ, Bool, true, false, leb, nat_eq, not, String, List, [], ◌∷◌, ◌++◌, Option, none, some,
  Map, lookup, insert, ◌==◌, if◌then◌else◌, concat,
}
use istio_operator.Errors.{Errors}
use istio_operator.Prog.{Result, ok, err}

-- Ver, whose constants count from 0
pub data Ver : Type 0 where
  invalid_version v1_1 v2_0 v2_1 v2_2 v2_3 : Ver

-- The number of the constant.
unfoldable pub to_int : Ver → ℕ
to_int invalid_version = 0
to_int v1_1 = 1
to_int v2_0 = 2
to_int v2_1 = 3
to_int v2_2 = 4
to_int v2_3 = 5

-- The keys of the maps that init fills.
abbrev pub all_versions : List Ver
all_versions = invalid_version ∷ v1_1 ∷ v2_0 ∷ v2_1 ∷ v2_2 ∷ v2_3 ∷ []

-- DefaultVersion
abbrev pub default_version : Ver
default_version = v2_3

-- Ver.String, by versionToString
unfoldable pub version_string : Ver → String
version_string invalid_version = "InvalidVersion"
version_string v1_1 = "v1.1"
version_string v2_0 = "v2.0"
version_string v2_1 = "v2.1"
version_string v2_2 = "v2.2"
version_string v2_3 = "v2.3"

-- Ver.GetCNINetworkName, by versionToCNINetwork
unfoldable pub get_cni_network_name : Ver → String
get_cni_network_name invalid_version = ""
get_cni_network_name v1_1 = "v1-1-istio-cni"
get_cni_network_name v2_0 = "v2-0-istio-cni"
get_cni_network_name v2_1 = "v2-1-istio-cni"
get_cni_network_name v2_2 = "v2-2-istio-cni"
get_cni_network_name v2_3 = "v2-3-istio-cni"

unfoldable pub ver_eq : Ver → Ver → Bool
unfolding to_int
ver_eq v w = nat_eq (to_int v) (to_int w)

-- Ver.Compare
unfoldable pub compare : Ver → Ver → ℤ
unfolding to_int
compare v other = sub_ℕ (to_int v) (to_int other)

-- The loop of init that fills stringToVersion.
unfoldable pub add_strings : List Ver → Map Ver → Map Ver
unfolding ver_eq version_string insert
add_strings [] m = m
add_strings (v ∷ vs) m =
    add_strings vs (if ver_eq v invalid_version then m else insert (version_string v) v m)

-- stringToVersion
unfoldable pub string_to_version : Map Ver
unfolding add_strings
string_to_version = add_strings all_versions []

-- legacyVersions
unfoldable pub legacy_versions : Map Bool
legacy_versions = ("v1.0", true) ∷ []

is_legacy : Option Bool → Bool
is_legacy none = false
is_legacy (some b) = b

module _ {E : Type 0} (errors : Errors E) where
  parse_failure : String → Bool → Result E Ver
  parse_failure str true =
      err (errors.errorf (concat ("support for " ∷ str ∷ " has been dropped" ∷ [])))
  parse_failure str false = err (errors.errorf (concat ("invalid version: " ∷ str ∷ [])))

  parsed : String → Option Ver → Result E Ver
  unfolding parse_failure is_legacy lookup legacy_versions
  parsed str (some v) = ok v
  parsed str none = parse_failure str (is_legacy (lookup str legacy_versions))

  -- ParseVersion
  unfoldable pub parse_version : String → Result E Ver
  unfolding parsed lookup string_to_version
  parse_version str = parsed str (lookup str string_to_version)

-- The loop of init that fills supportedVersions.
unfoldable pub at_least : ℕ → List Ver → List Ver
unfolding to_int
at_least min [] = []
at_least min (v ∷ vs) = let rest = at_least min vs in if leb min (to_int v) then v ∷ rest else rest

supported_from : Option Ver → Option (List Ver)
unfolding at_least
supported_from none = none
supported_from (some v) = some (at_least (to_int v) all_versions)

-- supportedVersions, given the minimum supported version of the build; `none` is the panic of init
unfoldable pub supported_versions : String → Option (List Ver)
unfolding supported_from lookup string_to_version
supported_versions minimum = supported_from (lookup minimum string_to_version)

-- Ver.IsSupported
unfoldable pub is_supported : List Ver → Ver → Bool
unfolding ver_eq
is_supported [] v = false
is_supported (version ∷ vs) v = if ver_eq version v then true else is_supported vs v
