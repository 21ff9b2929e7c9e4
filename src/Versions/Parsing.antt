-- ===== src/Versions/Parsing.antt =====
-- ParseVersion and String (pkg/controller/versions/versions.go).
use istio_operator.Prelude.{◌≡◌, ◌≢◌, refl, String, eq_iff, arith}
use istio_operator.Errors.{Errors}
use istio_operator.Prog.{ok}
use istio_operator.Versions.{Ver, invalid_version, v1_1, version_string, parse_version}

module _ {E : Type 0} (errors : Errors E) where
  -- Every version but InvalidVersion is what its own string parses to.
  pub parse_version-version_string :
      (v : Ver) → v ≢ invalid_version → parse_version errors (version_string v) ≡ ok v
  unfolding parse_version version_string
  parse_version-version_string invalid_version h = absurd (h refl)
  parse_version-version_string v1_1 h = refl
  parse_version-version_string _ h = refl

  -- A string that parses is the string of the version that it gives, which is not InvalidVersion.
  pub version_string-parse_version :
      (str : String) (v : Ver)
      → parse_version errors str ≡ ok v
      → (version_string v ≡ str) × (v ≢ invalid_version)
  unfolding parse_version version_string
  version_string-parse_version str v h = ground (
    arith,
    eq_iff "v1.1" str,
    eq_iff "v2.0" str,
    eq_iff "v2.1" str,
    eq_iff "v2.2" str,
    eq_iff "v2.3" str,
  )
