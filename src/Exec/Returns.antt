-- ===== src/Exec/Returns.antt =====
-- Actions that return: a rule for each way to build one.
use cluster_api_provider_kwo.Prelude.{◌≡◌, refl, true}
use cluster_api_provider_kwo.Exec.{
  Outcome, ok, err, panic, out_of_fuel, Exec, returns, continue, map_err_outcome, ◌>>=◌,
}

module _ {ℓ} {S E A B : Type ℓ} where
  pub returns-continue :
      (o : Outcome E A) (f : A → Exec S E B) (s : S)
      → returns o ≡ true
      → ((a : A) → returns (f a s).0 ≡ true)
      → returns (continue o f s).0 ≡ true
  returns-continue (ok a) f s h k = k a
  returns-continue (err e) f s h k = refl
  returns-continue panic f s h k = h
  returns-continue out_of_fuel f s h k = h

  pub returns->>= :
      (m : Exec S E A) (f : A → Exec S E B) (s : S)
      → returns (m s).0 ≡ true
      → ((a : A) → returns (f a (m s).1).0 ≡ true)
      → returns ((m >>= f) s).0 ≡ true
  returns->>= m f s h k = returns-continue (m s).0 f (m s).1 h k

module _ {ℓ} {E A : Type ℓ} where
  pub returns-map_err :
      (f : E → E) (o : Outcome E A) → returns o ≡ true → returns (map_err_outcome f o) ≡ true
  returns-map_err f (ok a) h = refl
  returns-map_err f (err e) h = refl
  returns-map_err f panic h = h
  returns-map_err f out_of_fuel h = h
