-- ===== src/Manager/Follows.antt =====
-- What it means that an action of main.go carries out a plan: it asks for one thing after the other,
-- and ends at the first refusal.
use mathlib.Core.List.{◌++◌}
use cluster_api_provider_kwo.Prelude.{
  sym, Bool, true, false, List, [], ◌∷◌, ◌≡◌, refl, ap, ◌∙◌, if◌then◌else◌,
}
use cluster_api_provider_kwo.Exec.{
  Result, value, error, Outcome, ok, err, Exec, pure, continue, ◌>>=◌, ◌>>◌,
}
use cluster_api_provider_kwo.Kube.{Op}
use cluster_api_provider_kwo.Manager.Setup.{Process, Exit, Event, granted, must, always}

-- The log after all of the events were granted.
abbrev pub all_granted : List Event → List (Event × Bool) → List (Event × Bool)
all_granted [] log = log
all_granted (event ∷ events) log = all_granted events ((event, true) ∷ log)

-- What a process that carries out a plan does to the log: all of the plan was granted and it
-- returns, or the plan was granted up to an event that was refused, which is its last, and it exits.
pub data IsFollowed {E A : Type 0} (plan : List Event) (log : List (Event × Bool)) (o : Outcome E A)
    (log' : List (Event × Bool)) : Type 0 where
  completed : (a : A) → o ≡ ok a → log' ≡ all_granted plan log → IsFollowed plan log o log'
  stopped :
      (sent : List Event) (event : Event) (unsent : List Event) (e : E)
      → plan ≡ sent ++ (event ∷ unsent)
      → o ≡ err e
      → log' ≡ (event, false) ∷ all_granted sent log
      → IsFollowed plan log o log'

abbrev pub Follows : {W E A : Type 0} → List Event → Exec (Process W) (Exit E) A → Type 0
Follows {W} plan m = (s : Process W) → IsFollowed plan s.asked (m s).0 (m s).1.asked

all_granted-append :
    (p q : List Event) (log : List (Event × Bool))
    → all_granted (p ++ q) log ≡ all_granted q (all_granted p log)
all_granted-append [] q log = refl
all_granted-append (event ∷ p) q log = all_granted-append p q ((event, true) ∷ log)

append_assoc : (p q r : List Event) → (p ++ q) ++ r ≡ p ++ (q ++ r)
append_assoc [] q r = refl
append_assoc (event ∷ p) q r = ap (◌∷◌ event) (append_assoc p q r)

module _ {W E A : Type 0} where
  pub pure-Follows : (a : A) → Follows {W = W} {E = E} [] (pure a)
  pure-Follows a s = completed a refl refl

  granted-IsFollowed :
      (exit : E → Exit E) (event : Event) (r : Result E A) (w : W) (s : Process W)
      → IsFollowed
          (event ∷ [])
          s.asked
          (granted exit event r w s).0
          (granted exit event r w s).1.asked
  granted-IsFollowed exit event (value a) w s = completed a refl refl
  granted-IsFollowed exit event (error e) w s = stopped [] event [] (exit e) refl refl refl

  pub must-Follows :
      (exit : E → Exit E) (event : Event) (op : Op W E A)
      → Follows (event ∷ []) (must exit event op)
  unfolding must
  must-Follows exit event op s = granted-IsFollowed exit event (op s.world).0 (op s.world).1 s

module _ {W E : Type 0} where
  pub always-Follows : (event : Event) (f : W → W) → Follows {E = E} (event ∷ []) (always event f)
  unfolding always
  always-Follows event f s = completed tt refl refl

module _ {W E A B : Type 0} where
  continue-IsFollowed :
      (p q : List Event) (log : List (Event × Bool)) (o : Outcome (Exit E) A)
      (f : A → Exec (Process W) (Exit E) B) (s : Process W)
      → IsFollowed p log o s.asked
      → ((a : A) → Follows q (f a))
      → IsFollowed (p ++ q) log (continue o f s).0 (continue o f s).1.asked
  continue-IsFollowed p q log o f s (completed a e l) h = rw e (elim (h a s) [
    | completed b e' l' ↦
        completed b e' (l' ∙ ap (all_granted q) l ∙ sym (all_granted-append p q log))
    | stopped sent event unsent b same e' l' ↦
        stopped (p ++ sent) event unsent b
          (ap (◌++◌ p) same ∙ sym (append_assoc p sent (event ∷ unsent))) e'
          (l'
            ∙ ap (λ t. (event, false) ∷ all_granted sent t) l
            ∙ sym (ap (λ t. (event, false) ∷ t) (all_granted-append p sent log)))
  ])
  continue-IsFollowed p q log o f s (stopped sent event unsent b same e l) h = rw e (
      stopped sent event (unsent ++ q) b
        (ap (λ t. t ++ q) same ∙ append_assoc sent (event ∷ unsent) q) refl l)

  pub >>=-Follows :
      (p q : List Event) (m : Exec (Process W) (Exit E) A) (f : A → Exec (Process W) (Exit E) B)
      → Follows p m
      → ((a : A) → Follows q (f a))
      → Follows (p ++ q) (m >>= f)
  >>=-Follows p q m f h k s = continue-IsFollowed p q s.asked (m s).0 f (m s).1 (h s) k

  -- The rules for what is carried out before the rest of a plan.
  pub must-then-Follows :
      (exit : E → Exit E) (event : Event) (op : Op W E A) (f : A → Exec (Process W) (Exit E) B)
      (q : List Event)
      → ((a : A) → Follows q (f a))
      → Follows (event ∷ q) (must exit event op >>= f)
  must-then-Follows exit event op f q h =
      >>=-Follows (event ∷ []) q (must exit event op) f (must-Follows exit event op) h

module _ {W E B : Type 0} where
  pub always-then-Follows :
      (event : Event) (f : W → W) (n : Exec (Process W) (Exit E) B) (q : List Event)
      → Follows q n
      → Follows (event ∷ q) (always event f >> n)
  always-then-Follows event f n q h =
      >>=-Follows (event ∷ []) q (always event f) (λ _. n) (always-Follows event f) (λ _. h)

module _ {W E A : Type 0} where
  pub if-Follows :
      (b : Bool) (p q : List Event) (m n : Exec (Process W) (Exit E) A)
      → Follows p m
      → Follows q n
      → Follows (if b then p else q) (if b then m else n)
  if-Follows true p q m n h k = h
  if-Follows false p q m n h k = k
