-- ===== src/Exec/Inversion.antt =====
-- What an action that ended well says of its parts.
use cluster_api_provider_kwo.Prelude.{◌≡◌, refl, ap}
use cluster_api_provider_kwo.Exec.{
  Outcome, ok, err, panic, out_of_fuel, Exec, continue, map_err_outcome, keep_first, keep_last,
  ◌>>=◌,
}

module _ {ℓ} {S E A B : Type ℓ} where
  -- A chain ends well only if its first part does; then it is its rest.
  pub continue-eq_ok :
      (o : Outcome E A) (f : A → Exec S E B) (s : S) {b : B}
      → (continue o f s).0 ≡ ok b
      → (a : A) × (o ≡ ok a) × (continue o f s ≡ f a s) × ((f a s).0 ≡ ok b)
  continue-eq_ok (ok a) f s h = (a, refl, refl, h)
  continue-eq_ok (err e) f s h = absurd (cc)
  continue-eq_ok panic f s h = absurd (cc)
  continue-eq_ok out_of_fuel f s h = absurd (cc)

  pub >>=-eq_ok :
      (m : Exec S E A) (f : A → Exec S E B) (s : S) {b : B}
      → ((m >>= f) s).0 ≡ ok b
      → (a : A) × ((m s).0 ≡ ok a) × ((m >>= f) s ≡ f a (m s).1) × ((f a (m s).1).0 ≡ ok b)
  >>=-eq_ok m f s h = continue-eq_ok (m s).0 f (m s).1 h

module _ {ℓ} {E A : Type ℓ} where
  pub map_err_outcome-eq_ok :
      (f : E → E) (o : Outcome E A) {a : A} → map_err_outcome f o ≡ ok a → o ≡ ok a
  map_err_outcome-eq_ok f (ok a) h = h
  map_err_outcome-eq_ok f (err e) h = absurd (cc)
  map_err_outcome-eq_ok f panic h = absurd (cc)
  map_err_outcome-eq_ok f out_of_fuel h = absurd (cc)

module _ {ℓ} {E A U : Type ℓ} where
  -- With `keep_first` a deferred call that fails is never hidden behind a success.
  pub keep_first-eq_ok :
      (o : Outcome E A) (p : Outcome E U) {a : A}
      → keep_first o p ≡ ok a
      → (o ≡ ok a) × ((u : U) × (p ≡ ok u))
  keep_first-eq_ok (ok a) (ok u) h = (h, (u, refl))
  keep_first-eq_ok (ok a) (err e) h = absurd (cc)
  keep_first-eq_ok (ok a) panic h = absurd (cc)
  keep_first-eq_ok (ok a) out_of_fuel h = absurd (cc)
  keep_first-eq_ok (err e) p h = absurd (cc)
  keep_first-eq_ok panic p h = absurd (cc)
  keep_first-eq_ok out_of_fuel p h = absurd (cc)

module _ {ℓ} {E A : Type ℓ} where
  pub ok-injective : {a b : A} → ◌≡◌ {A = Outcome E A} (ok a) (ok b) → a ≡ b
  ok-injective h = cc

module _ {ℓ} {S E A B : Type ℓ} where
  -- A step of a chain that is known.
  pub >>=-of_ok :
      (m : Exec S E A) (f : A → Exec S E B) (s : S) {a : A} {t : S}
      → m s ≡ (ok a, t)
      → (m >>= f) s ≡ f a t
  >>=-of_ok m f s e = ap (λ (r : Outcome E A × S). continue r.0 f r.1) e

module _ {ℓ} {E A U : Type ℓ} where
  -- Nor with `keep_last`.
  pub keep_last-eq_ok :
      (o : Outcome E A) (p : Outcome E U) {a : A}
      → keep_last o p ≡ ok a
      → (o ≡ ok a) × ((u : U) × (p ≡ ok u))
  keep_last-eq_ok (ok a) p h = keep_first-eq_ok (ok a) p h
  keep_last-eq_ok (err e) p h = absurd (cc)
  keep_last-eq_ok panic p h = absurd (cc)
  keep_last-eq_ok out_of_fuel p h = absurd (cc)

module _ {ℓ} {S E A B : Type ℓ} where
  -- What holds of the state after the first part of a chain, and after its rest if that part ended
  -- well, holds after the chain.
  pub continue-keeps :
      (P : S → Type 0) (o : Outcome E A) (f : A → Exec S E B) (s : S)
      → P s
      → ((a : A) → o ≡ ok a → P (f a s).1)
      → P (continue o f s).1
  continue-keeps P (ok a) f s p k = k a refl
  continue-keeps P (err e) f s p k = p
  continue-keeps P panic f s p k = p
  continue-keeps P out_of_fuel f s p k = p
