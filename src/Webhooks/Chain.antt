-- ===== src/Webhooks/Chain.antt =====
-- Which versions validateUpdate visits
-- (pkg/controller/servicemesh/webhooks/validation/controlplane.go).
use istio_operator.Prelude.{
  ltb, leb, ◌&&◌, ◌≡◌, refl, List, [], ◌∷◌, Option, none, some, if◌then◌else◌,
}
use istio_operator.Prog.{Prog, pure, ◌>>=◌, on_error, when}
use istio_operator.Kube.{Call}
use istio_operator.Versions.{
  Ver, invalid_version, v1_1, v2_0, v2_1, v2_2, v2_3, to_int, all_versions,
}
use istio_operator.Webhooks.Upgrades.{Strategies, validate_path}

-- The versions of a list that are newer than the first one given and no newer than the second.
unfoldable pub between : Ver → Ver → List Ver → List Ver
between low high [] = []
between low high (v ∷ vs) =
    let rest = between low high vs in
    if ltb (to_int low) (to_int v) && leb (to_int v) (to_int high) then v ∷ rest else rest

-- The known versions, the newest one first.
abbrev pub newest_first : List Ver
newest_first = v2_3 ∷ v2_2 ∷ v2_1 ∷ v2_0 ∷ v1_1 ∷ invalid_version ∷ []

-- Runs a check of versions until the first error.
unfoldable pub first_error :
    {E : Type 0} → (Ver → Prog Call (Option E)) → List Ver → Prog Call (Option E)
first_error check [] = pure none
first_error check (v ∷ vs) =
    let rest = first_error check vs in do e ← check v; on_error e (λ x. pure (some x)) rest

module _ {E A : Type 0} (strategies : Strategies E A) (object : A) where
  open strategies use {validate_upgrade, validate_downgrade}

  -- An update to a newer version is checked by the upgrade validation of each known version that is
  -- newer than the old one and no newer than the new one, the oldest first; any other update by the
  -- downgrade validation of each version that is newer than the new one and no newer than the old
  -- one, the newest first; and the first error ends the checks.
  pub validate_path_lem :
      (old new : Ver)
      → validate_path strategies object old new ≡ (
          if ltb (to_int old) (to_int new)
          then first_error (λ v. validate_upgrade v object) (between old new all_versions)
          else first_error (λ v. validate_downgrade v object) (between new old newest_first))
  unfolding validate_path first_error between when
  validate_path_lem invalid_version invalid_version = refl
  validate_path_lem invalid_version _ = refl
  validate_path_lem v1_1 invalid_version = refl
  validate_path_lem v1_1 _ = refl
  validate_path_lem v2_0 invalid_version = refl
  validate_path_lem v2_0 _ = refl
  validate_path_lem v2_1 invalid_version = refl
  validate_path_lem v2_1 _ = refl
  validate_path_lem v2_2 invalid_version = refl
  validate_path_lem v2_2 _ = refl
  validate_path_lem v2_3 invalid_version = refl
  validate_path_lem v2_3 _ = refl
