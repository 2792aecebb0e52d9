-- ===== src/Exec.antt =====
-- Go code that changes state and may fail: what a call returns, and the two ways in which the
-- source defers a patch. A write made before an error stays, so the state comes back beside it.
pub mod Inversion
pub mod Returns
use cluster_api_provider_kwo.Prelude.{Bool, true, false}

-- What a call of code outside the repository returns: Go's pair of a value and an error.
pub data Result {ℓ} (E A : Type ℓ) : Type ℓ where
  value : A → Result E A
  error : E → Result E A

-- How a Go function ends: it returns, it returns an error, it panics; `out_of_fuel` is the model's
-- own, for a recursion that the source does not bound.
pub data Outcome {ℓ} (E A : Type ℓ) : Type ℓ where
  ok : A → Outcome E A
  err : E → Outcome E A
  panic : Outcome E A
  out_of_fuel : Outcome E A

abbrev pub is_ok {ℓ} : {E A : Type ℓ} → Outcome E A → Bool
is_ok (ok a) = true
is_ok (err e) = false
is_ok panic = false
is_ok out_of_fuel = false

-- The function returns, with an error or without: it neither panics nor runs out of fuel.
abbrev pub returns {ℓ} : {E A : Type ℓ} → Outcome E A → Bool
returns (ok a) = true
returns (err e) = true
returns panic = false
returns out_of_fuel = false

abbrev pub Exec {ℓ} : Type ℓ → Type ℓ → Type ℓ → Type ℓ
Exec S E A = S → Outcome E A × S

module _ {ℓ} {S E A : Type ℓ} where
  abbrev pub pure : A → Exec S E A
  pure a s = (ok a, s)

  abbrev pub raise : E → Exec S E A
  raise e s = (err e, s)

  abbrev pub panics : Exec S E A
  panics s = (panic, s)

  abbrev pub of_result : Result E A → Exec S E A
  of_result (value a) s = (ok a, s)
  of_result (error e) s = (err e, s)

module _ {ℓ} {S E A B : Type ℓ} where
  abbrev pub continue : Outcome E A → (A → Exec S E B) → Exec S E B
  continue (ok a) f s = f a s
  continue (err e) f s = (err e, s)
  continue panic f s = (panic, s)
  continue out_of_fuel f s = (out_of_fuel, s)

  infixl 5 ◌>>=◌ ◌>>◌
  abbrev pub ◌>>=◌ : Exec S E A → (A → Exec S E B) → Exec S E B
  ◌>>=◌ m f s = let (o, s') = m s in continue o f s'

  abbrev pub ◌>>◌ : Exec S E A → Exec S E B → Exec S E B
  m >> n = m >>= λ _. n

-- `if err := m(); err != nil` where the code goes on: the error becomes a value.
abbrev pub attempt_outcome {ℓ} : {E A : Type ℓ} → Outcome E A → Outcome E (Result E A)
attempt_outcome (ok a) = ok (value a)
attempt_outcome (err e) = ok (error e)
attempt_outcome panic = panic
attempt_outcome out_of_fuel = out_of_fuel

abbrev pub attempt {ℓ} : {S E A : Type ℓ} → Exec S E A → Exec S E (Result E A)
attempt m s = let (o, s') = m s in (attempt_outcome o, s')

-- `fmt.Errorf("…: %w", err)`: the error is passed on with a context.
abbrev pub map_err_outcome {ℓ} : {E A : Type ℓ} → (E → E) → Outcome E A → Outcome E A
map_err_outcome f (ok a) = ok a
map_err_outcome f (err e) = err (f e)
map_err_outcome f panic = panic
map_err_outcome f out_of_fuel = out_of_fuel

abbrev pub map_err {ℓ} : {S E A : Type ℓ} → (E → E) → Exec S E A → Exec S E A
map_err f m s = let (o, s') = m s in (map_err_outcome f o, s')

abbrev pub last_error {ℓ} : {E U : Type ℓ} → E → Outcome E U → E
last_error e (ok u) = e
last_error e (err e') = e'
last_error e panic = e
last_error e out_of_fuel = e

module _ {ℓ} {E A U : Type ℓ} where
  -- What a function that returned `a` returns once its deferred call has ended.
  abbrev pub after_ok : A → Outcome E U → Outcome E A
  after_ok a (ok u) = ok a
  after_ok a (err e) = err e
  after_ok a panic = panic
  after_ok a out_of_fuel = out_of_fuel

  -- `if reterr == nil { reterr = err }` in the deferred function.
  abbrev pub keep_first : Outcome E A → Outcome E U → Outcome E A
  keep_first (ok a) p = after_ok a p
  keep_first (err e) p = err e
  keep_first panic p = panic
  keep_first out_of_fuel p = out_of_fuel

  -- `reterr = err` in the deferred function.
  abbrev pub keep_last : Outcome E A → Outcome E U → Outcome E A
  keep_last (ok a) p = after_ok a p
  keep_last (err e) p = err (last_error e p)
  keep_last panic p = panic
  keep_last out_of_fuel p = out_of_fuel

module _ {ℓ} {S E A U : Type ℓ} where
  -- `defer`: the second call runs however the first one ends.
  abbrev pub deferring :
      (Outcome E A → Outcome E U → Outcome E A) → Exec S E A → Exec S E U → Exec S E A
  deferring join m d s = let (o, s') = m s in let (p, s'') = d s' in (join o p, s'')
