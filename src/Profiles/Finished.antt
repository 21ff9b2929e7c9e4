-- ===== src/Profiles/Finished.antt =====
-- recursivelyApplyProfiles of pkg/controller/versions/template.go, where profiles include only
-- profiles of a lower rank.
use istio_operator.Prelude.{
  ℕ, zero, suc, ◌<◌, ◌≤◌, ◌≡◌, refl, Bool, true, false, String, List, [], ◌∷◌, ◌++◌, Option, none,
  some, All, arith, has, if◌then◌else◌,
}
use istio_operator.Prog.{Result, ok, err}
use istio_operator.Profiles.Values.{table, merge_value}
use istio_operator.Profiles.Kept.{IsKeptIn, merge_value-IsKeptIn}
use istio_operator.Profiles.Applying.{
  Spec, ProfileEnv, get_content, merge_profile, get_smcp_profile, after_included, apply_profile,
  apply_loop, reversed, recursively_apply_profiles,
}

-- What a spec sets is set to the same in another.
pub record IsKept (before after : Spec) : Type 0 where
  pub of_istio :
      IsKeptIn (some (table (get_content before.istio))) (some (table (get_content after.istio)))
  pub of_three_scale :
      IsKeptIn
        (some (table (get_content before.three_scale)))
        (some (table (get_content after.three_scale)))

-- There is a result, with or without an error, and it keeps what a spec sets.
abbrev pub IsApplied : {E : Type 0} → Spec → Option (Spec × Option E) → Type 0
IsApplied smcp none = ⊥
IsApplied smcp (some (result, e)) = IsKept smcp result

-- Every profile includes only profiles of a lower rank.
abbrev pub IsRanked : {E : Type 0} → ProfileEnv E → String → (String → ℕ) → Type 0
IsRanked env target_namespace rank =
    (name : String) (profile : Spec) (profiles : List String)
    → get_smcp_profile env name target_namespace ≡ ok (profile, profiles)
    → All (λ included. rank included < rank name) profiles

IsKept-refl : (a : Spec) → IsKept a a
IsKept-refl a = record { of_istio = λ path s h. h; of_three_scale = λ path s h. h }

IsKept-trans : (a b c : Spec) → IsKept a b → IsKept b c → IsKept a c
IsKept-trans a b c f g = record {
  of_istio = λ path s h. g.of_istio path s (f.of_istio path s h);
  of_three_scale = λ path s h. g.of_three_scale path s (f.of_three_scale path s h);
}

merge_profile-IsKept : (a profile : Spec) → IsKept a (merge_profile a profile)
unfolding merge_profile get_content merge_value
merge_profile-IsKept a profile = record {
  of_istio = merge_value-IsKeptIn (table (get_content a.istio)) (table (get_content profile.istio));
  of_three_scale =
      merge_value-IsKeptIn (table (get_content a.three_scale))
        (table (get_content profile.three_scale));
}

module _ (P : String → Type 0) where
  All-end :
      (names : List String) (name : String) → All P names → P name → All P (names ++ (name ∷ []))
  All-end [] name h p = (p, tt)
  All-end (n ∷ names) name (q, h) p = (q, All-end names name h p)

  All-reversed : (names : List String) → All P names → All P (reversed names)
  unfolding reversed
  All-reversed [] h = tt
  All-reversed (n ∷ names) (p, h) = All-end (reversed names) n (All-reversed names h) p

module _ {E : Type 0} (env : ProfileEnv E) (target_namespace : String) (visited : List String) where
  IsApplied-trans :
      (a b : Spec) (o : Option (Spec × Option E)) → IsKept a b → IsApplied b o → IsApplied a o
  IsApplied-trans a b none h k = k
  IsApplied-trans a b (some (c, e)) h k = IsKept-trans a b c h k

  -- Every spec is given a result that keeps what it sets.
  abbrev AlwaysApplies : (Spec → Option (Spec × Option E)) → Type 0
  AlwaysApplies f = (smcp : Spec) → IsApplied smcp (f smcp)

  included_lem :
      (rest : Spec → Option (Spec × Option E))
      → AlwaysApplies rest
      → (smcp : Spec) (o : Option (Spec × Option E)) → IsApplied smcp o
      → IsApplied smcp (elim o [ none ↦ none | some applied ↦ after_included env rest applied ])
  unfolding after_included
  included_lem rest hr smcp none h = h
  included_lem rest hr smcp (some (s, some e)) h = h
  included_lem rest hr smcp (some (s, none)) h = IsApplied-trans smcp s (rest s) h (hr s)

  apply_profile_lem :
      (included : Spec → List String → Option (Spec × Option E))
      (rest : Spec → Option (Spec × Option E))
      → AlwaysApplies rest
      → (smcp : Spec) (r : Result E (Spec × List String))
      → ((profile : Spec) (profiles : List String)
          → r ≡ ok (profile, profiles)
          → (s : Spec) → IsApplied s (included s profiles))
      → IsApplied smcp (apply_profile env included rest smcp r)
  unfolding apply_profile
  apply_profile_lem included rest hr smcp (err e) hi = IsKept-refl smcp
  apply_profile_lem included rest hr smcp (ok (profile, profiles)) hi =
      included_lem rest hr smcp _ (
        IsApplied-trans smcp (merge_profile smcp profile) _ (merge_profile-IsKept smcp profile)
          (hi profile profiles refl (merge_profile smcp profile)))

  visited_lem :
      (b : Bool) (smcp : Spec) (f g : Option (Spec × Option E))
      → IsApplied smcp f
      → IsApplied smcp g
      → IsApplied smcp (if b then f else g)
  visited_lem true smcp f g hf hg = hf
  visited_lem false smcp f g hf hg = hg

  loop_lem :
      (included : Spec → List String → Option (Spec × Option E)) (P : String → Type 0)
      → ((name : String) (profile : Spec) (profiles : List String)
          → P name
          → get_smcp_profile env name target_namespace ≡ ok (profile, profiles)
          → (s : Spec) → IsApplied s (included s profiles))
      → (names : List String) → All P names
      → AlwaysApplies (apply_loop env included target_namespace visited names)
  unfolding apply_loop
  loop_lem included P hi [] h smcp = IsKept-refl smcp
  loop_lem included P hi (name ∷ names) (p, h) smcp =
      let rest : AlwaysApplies (apply_loop env included target_namespace visited names) =
        loop_lem included P hi names h in
      visited_lem (has name visited) smcp _ _ (rest smcp) (
        apply_profile_lem included _ rest smcp (get_smcp_profile env name target_namespace)
          (λ profile profiles. hi name profile profiles p))

  below :
      (rank : String → ℕ) (m n : ℕ) (names : List String)
      → m ≤ n
      → All (λ included. rank included < m) names
      → All (λ included. rank included < n) names
  below rank m n [] le h = tt
  below rank m n (name ∷ names) le (p, h) = (omega (arith, p, le), below rank m n names le h)

  -- Where profiles include only profiles of a lower rank, and the fuel is at least one and at least
  -- two more than the rank of each given profile: recursivelyApplyProfiles returns, with or without
  -- an error, a spec in which every value but a map that the given spec has is the same, whatever the
  -- profiles set.
  pub recursively_apply_profiles-IsApplied :
      (rank : String → ℕ)
      → IsRanked env target_namespace rank
      → (fuel : ℕ) (smcp : Spec) (profiles : List String) → All (λ name. rank name < fuel) profiles
      → IsApplied smcp
          (recursively_apply_profiles env (suc fuel) target_namespace visited smcp profiles)
  unfolding recursively_apply_profiles
  recursively_apply_profiles-IsApplied rank ranked zero smcp profiles h =
      loop_lem (recursively_apply_profiles env zero target_namespace visited)
        (λ name. rank name < zero) (λ name profile included p e s. absurd (omega (arith, p)))
        (reversed profiles) (All-reversed _ profiles h) smcp
  recursively_apply_profiles-IsApplied rank ranked (suc fuel) smcp profiles h =
      loop_lem (recursively_apply_profiles env (suc fuel) target_namespace visited)
        (λ name. rank name < suc fuel)
        (λ name profile included p e s.
          recursively_apply_profiles-IsApplied rank ranked fuel s included (
            below rank (rank name) fuel included (omega (arith, p))
              (ranked name profile included e)))
        (reversed profiles) (All-reversed _ profiles h) smcp
