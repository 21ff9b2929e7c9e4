-- ===== src/Webhooks/Upgrades.antt =====
-- ControlPlaneValidator.validateUpdate
-- (pkg/controller/servicemesh/webhooks/validation/controlplane.go). What the strategy of each version
-- validates is an interface, as in the source (ValidationStrategy of
-- pkg/controller/versions/versions.go).
use istio_operator.Prelude.{
  ℕ, zero, suc, ltb, leb, nat_eq, String, [], ◌∷◌, Option, none, some, if◌then◌else◌, concat,
}
use istio_operator.Prog.{Prog, pure, ◌>>=◌, on_error, when}
use istio_operator.Errors.{Errors}
use istio_operator.Kube.{Call}
use istio_operator.Versions.{
  Ver, invalid_version, v1_1, v2_0, v2_1, v2_2, v2_3, to_int, version_string,
}
use istio_operator.Webhooks.Admission.{Response, allowed, bad_request}

-- What validateUpdate uses of the strategies; `A` is the type of control planes.
pub record Strategies (E A : Type 0) : Type 0 where
  pub validate_upgrade : Ver → A → Prog Call (Option E)
  pub validate_downgrade : Ver → A → Prog Call (Option E)
  pub validate_update : Ver → A → A → Prog Call (Option E)

-- The version of a number; the loops reach no number above that of a version.
unfoldable pub of_int : ℕ → Ver
of_int n =
    if nat_eq n 1
    then v1_1
    else if nat_eq n 2
    then v2_0
    else if nat_eq n 3
    then v2_1
    else if nat_eq n 4
    then v2_2
    else if nat_eq n 5
    then v2_3
    else invalid_version

module _ {E A : Type 0} (strategies : Strategies E A) (object : A) where
  open strategies use {validate_upgrade, validate_downgrade}

  -- The loop `for version := …; version <= new; version++`, with as much fuel as `new`.
  unfoldable pub upgrade_loop : ℕ → ℕ → ℕ → Prog Call (Option E)
  unfolding of_int
  upgrade_loop zero version new = pure none
  upgrade_loop (suc fuel) version new =
      let rest = upgrade_loop fuel (suc version) new in
      when (leb version new)
        (do e ← validate_upgrade (of_int version) object; on_error e (λ x. pure (some x)) rest)
        (pure none)

  -- The loop `for version := …; version > new; version--`.
  unfoldable pub downgrade_loop : ℕ → ℕ → Prog Call (Option E)
  unfolding of_int
  downgrade_loop zero new = pure none
  downgrade_loop (suc version) new =
      let rest = downgrade_loop version new in
      when (ltb new (suc version))
        (do
          e ← validate_downgrade (of_int (suc version)) object
          on_error e (λ x. pure (some x)) rest)
        (pure none)

  -- The part of validateUpdate that looks for an error between adjacent versions.
  unfoldable pub validate_path : Ver → Ver → Prog Call (Option E)
  unfolding upgrade_loop downgrade_loop to_int
  validate_path old new =
      if ltb (to_int old) (to_int new)
      then upgrade_loop (to_int new) (suc (to_int old)) (to_int new)
      else downgrade_loop (to_int old) (to_int new)

module _ {E A : Type 0} (errors : Errors E) (strategies : Strategies E A) where
  path_error : Ver → Ver → E → String
  path_error old new e = concat (
      (if ltb (to_int old) (to_int new)
        then "cannot upgrade control plane from version "
        else "cannot downgrade control plane from version ")
      ∷ version_string old
      ∷ " to "
      ∷ version_string new
      ∷ ": "
      ∷ errors.message e
      ∷ [])

  -- validateUpdate
  unfoldable pub validate_control_plane_update : Ver → Ver → A → A → Prog Call (Response E)
  unfolding path_error
  validate_control_plane_update old new old_object new_object = do
    failed ← validate_path strategies new_object old new
    on_error failed (λ e. pure (bad_request (path_error old new e)))
        (do
          refused ← strategies.validate_update new old_object new_object
          on_error refused (λ e. pure (bad_request (errors.message e))) (pure allowed))
