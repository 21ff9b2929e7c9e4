-- ===== src/Versions/Support.antt =====
-- Order and support of versions (pkg/controller/versions/versions.go).
use istio_operator.Prelude.{
  ℕ, if◌then◌else◌, concat, [], ◌∷◌, ltb, nat_eq, ◌&&◌, ◌||◌, ◌↔◌, ◌∙◌, sym, subst, ℤ, pos, negsuc,
  leb, ◌≡◌, refl, Bool, true, false, List, String, some, arith, lookup,
}
use istio_operator.Versions.{
  Ver, invalid_version, v1_1, v2_0, v2_1, v2_2, v2_3, to_int, all_versions, compare, version_string,
  is_supported, at_least, supported_versions, string_to_version,
}

to_int_injective : (v w : Ver) → to_int v ≡ to_int w → v ≡ w
unfolding to_int
to_int_injective v w h = ground arith

-- The major and the minor number that a version's name has; InvalidVersion is before all of them.
unfoldable pub release : Ver → ℕ × ℕ
release invalid_version = (0, 0)
release v1_1 = (1, 1)
release v2_0 = (2, 0)
release v2_1 = (2, 1)
release v2_2 = (2, 2)
release v2_3 = (2, 3)

digit : ℕ → String
digit n =
    if nat_eq n 0
    then "0"
    else (if nat_eq n 1
        then "1"
        else (if nat_eq n 2 then "2" else (if nat_eq n 3 then "3" else "")))

-- The name that a version with these numbers has.
unfoldable pub release_name : ℕ × ℕ → String
unfolding digit
release_name (major, minor) =
    if nat_eq major 0 then "InvalidVersion" else concat ("v" ∷ digit major ∷ "." ∷ digit minor ∷ [])

release_name-release : (v : Ver) → version_string v ≡ release_name (release v)
unfolding version_string release_name release
release_name-release invalid_version = refl
release_name-release v1_1 = refl
release_name-release v2_0 = refl
release_name-release v2_1 = refl
release_name-release v2_2 = refl
release_name-release v2_3 = refl

-- Whether the first version is older than the second.
unfoldable pub is_older : Ver → Ver → Bool
unfolding release
is_older v w =
    let (major, minor) = release v in
    let (major_other, minor_other) = release w in
    ltb major major_other || (nat_eq major major_other && ltb minor minor_other)

-- What Compare's documentation says of its result.
abbrev pub is_negative : ℤ → Bool
is_negative (pos n) = false
is_negative (negsuc n) = true

abbrev pub is_positive : ℤ → Bool
is_positive (pos n) = ltb 0 n
is_positive (negsuc n) = false

is_older-to_int : (v w : Ver) → is_older v w ≡ ltb (to_int v) (to_int w)
unfolding is_older to_int
is_older-to_int invalid_version invalid_version = refl
is_older-to_int invalid_version _ = refl
is_older-to_int v1_1 invalid_version = refl
is_older-to_int v1_1 _ = refl
is_older-to_int v2_0 invalid_version = refl
is_older-to_int v2_0 _ = refl
is_older-to_int v2_1 invalid_version = refl
is_older-to_int v2_1 _ = refl
is_older-to_int v2_2 invalid_version = refl
is_older-to_int v2_2 _ = refl
is_older-to_int v2_3 invalid_version = refl
is_older-to_int v2_3 _ = refl

is_negative-compare : (v w : Ver) → is_negative (compare v w) ≡ ltb (to_int v) (to_int w)
unfolding compare
is_negative-compare v w = ground arith

is_positive-compare : (v w : Ver) → is_positive (compare v w) ≡ ltb (to_int w) (to_int v)
unfolding compare
is_positive-compare v w = ground arith

-- Compare, against the major and minor numbers of the versions' names, of which InvalidVersion's come
-- before all others: it is negative exactly if the version is older than the other one, positive
-- exactly if the other one is older, and zero exactly for equal versions; and String writes
-- these numbers, or InvalidVersion's name.
pub compare_lem :
    (v w : Ver)
    → (is_negative (compare v w) ≡ is_older v w)
      × (is_positive (compare v w) ≡ is_older w v)
      × ((compare v w ≡ pos 0) ↔ (v ≡ w))
      × (version_string v ≡ release_name (release v))
compare_lem v w = (
  is_negative-compare v w ∙ sym (is_older-to_int v w),
  is_positive-compare v w ∙ sym (is_older-to_int w v),
  (zero_eq, λ e. subst (λ x. compare v x ≡ pos 0) e (unfold compare in ground arith)),
  release_name-release v,
)
  where
    zero_eq : compare v w ≡ pos 0 → v ≡ w
    zero_eq h = unfold compare in to_int_injective v w (ground arith)

is_supported-at_least :
    (m v : Ver) → is_supported (at_least (to_int m) all_versions) v ≡ leb (to_int m) (to_int v)
unfolding is_supported at_least
is_supported-at_least invalid_version invalid_version = refl
is_supported-at_least invalid_version _ = refl
is_supported-at_least v1_1 invalid_version = refl
is_supported-at_least v1_1 _ = refl
is_supported-at_least v2_0 invalid_version = refl
is_supported-at_least v2_0 _ = refl
is_supported-at_least v2_1 invalid_version = refl
is_supported-at_least v2_1 _ = refl
is_supported-at_least v2_2 invalid_version = refl
is_supported-at_least v2_2 _ = refl
is_supported-at_least v2_3 invalid_version = refl
is_supported-at_least v2_3 _ = refl

-- Once init has run for a minimum version, the supported versions are exactly those at least as new.
pub is_supported_iff :
    (minimum : String) (m v : Ver) (vs : List Ver)
    → lookup minimum string_to_version ≡ some m
    → supported_versions minimum ≡ some vs
    → is_supported vs v ≡ leb (to_int m) (to_int v)
unfolding supported_versions
is_supported_iff minimum m v vs parsed h =
    let e : at_least (to_int m) all_versions ≡ vs = cc (rw parsed at h) in
    rw (← e) (is_supported-at_least m v)
