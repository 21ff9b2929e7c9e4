-- ===== src/Webhooks/Guards.antt =====
-- What an admission of a request says of the checks before it: each check either ends in another
-- response, or is passed.
use istio_operator.Prelude.{
  Bool, true, false, ◌≡◌, refl, subst, Option, none, some, List, String, if◌then◌else◌,
}
use istio_operator.Prog.{Prog, Result, ok, err, pure, on_result, on_error, when}
use istio_operator.Webhooks.Admission.{Response, allowed, errored, rejected, patched, bad_request}

module _ {E : Type 0} where
  -- A response that does not admit the request.
  abbrev pub Refuses : Response E → Type 0
  Refuses allowed = ⊥
  Refuses (errored status e) = Unit
  Refuses (rejected status message) = Unit
  Refuses (patched members) = Unit

  refused : (r : Response E) → Refuses r → r ≡ allowed → ⊥
  refused allowed h eq = h
  refused (errored status e) h eq = cc eq
  refused (rejected status message) h eq = cc eq
  refused (patched members) h eq = cc eq

  pub granted :
      (b : Bool) (r : Response E) → Refuses r → (if b then allowed else r) ≡ allowed → b ≡ true
  granted true r h eq = refl
  granted false r h eq = absurd (refused r h eq)

module _ {C E : Type 0} where
  -- The program admits the request, after the calls `log`.
  abbrev pub Admits : Prog C (Response E) → List C → Type 0
  Admits m log = (m log).0 ≡ allowed

  pub passed_when :
      (b : Bool) (r : Response E) (m : Prog C (Response E)) (log : List C)
      → Refuses r
      → Admits (when b (pure r) m) log
      → (b ≡ false) × Admits m log
  unfolding when pure
  passed_when true r m log h admits = absurd (refused r h admits)
  passed_when false r m log h admits = (refl, admits)

  pub passed_unless :
      (b : Bool) (r : Response E) (m : Prog C (Response E)) (log : List C)
      → Refuses r
      → Admits (when b m (pure r)) log
      → (b ≡ true) × Admits m log
  unfolding when pure
  passed_unless true r m log h admits = (refl, admits)
  passed_unless false r m log h admits = absurd (refused r h admits)

  pub taken :
      (b : Bool) (m n : Prog C (Response E)) (log : List C)
      → b ≡ true
      → Admits (when b m n) log
      → Admits m log
  unfolding when
  taken b m n log h admits = subst (λ c. Admits (when c m n) log) h admits

  pub not_skipped :
      (b : Bool) (m n : Prog C (Response E)) (log : List C)
      → b ≡ false
      → Admits (when b m n) log
      → Admits n log
  unfolding when
  not_skipped b m n log h admits = subst (λ c. Admits (when c m n) log) h admits

  pub passed_error :
      (o : Option String) (m : Prog C (Response E)) (log : List C)
      → Admits (on_error o (λ s. pure (bad_request s)) m) log
      → (o ≡ none) × Admits m log
  unfolding on_error pure bad_request
  passed_error (some s) m log admits = absurd (refused (rejected 400 s) tt admits)
  passed_error none m log admits = (refl, admits)

module _ {C E A : Type 0} where
  pub passed_result :
      (r : Result E A) (f : A → Prog C (Response E)) (g : E → Response E) (log : List C)
      → ((e : E) → Refuses (g e))
      → Admits (on_result r f (λ e. pure (g e))) log
      → (a : A) × (r ≡ ok a) × Admits (f a) log
  unfolding on_result pure
  passed_result (ok a) f g log h admits = (a, refl, admits)
  passed_result (err e) f g log h admits = absurd (refused (g e) (h e) admits)

  pub found_result :
      (r : Result E A) (f : A → Prog C (Response E)) (g : E → Prog C (Response E)) (log : List C)
      (a : A)
      → r ≡ ok a
      → Admits (on_result r f g) log
      → Admits (f a) log
  unfolding on_result
  found_result r f g log a h admits = subst (λ r'. Admits (on_result r' f g) log) h admits
