-- ===== src/Kube/Session.antt =====
-- The state of a reconciler: the world outside, the trace of writes, the cached clients of the
-- workload clusters, and the object that the current call of `Reconcile` holds in memory.
use cluster_api_provider_kwo.Prelude.{String, List, ◌∷◌, ◌≡◌}
use cluster_api_provider_kwo.Exec.{Result, value, error, Outcome, ok, err, Exec}
use cluster_api_provider_kwo.Kube.Writes.{Write}
use cluster_api_provider_kwo.Kube.Failures.{Failure, raw}
use cluster_api_provider_kwo.Kube.Clients.{Op}

pub record Sys (W C : Type 0) : Type 0 where
  pub world : W
  pub trace : List Write
  pub clients : List (String × C)

pub record Held (W C O : Type 0) : Type 0 where
  pub sys : Sys W C
  pub object : O

abbrev pub raw_outcome : {E A : Type 0} → Result E A → Outcome (Failure E) A
raw_outcome (value a) = ok a
raw_outcome (error e) = err (raw e)

pub raw_outcome-eq_ok : {E A : Type 0} (r : Result E A) {a : A} → raw_outcome r ≡ ok a → r ≡ value a
raw_outcome-eq_ok (value a) h = cc
raw_outcome-eq_ok (error e) h = absurd (cc)

module _ {W C E A : Type 0} where
  -- A call that changes nothing outside.
  abbrev pub query : Op W E A → Exec (Sys W C) (Failure E) A
  query op s = let (r, w) = op s.world in (raw_outcome r, record s { world = w })

  -- A call that may change something.
  abbrev pub request : Write → Op W E A → Exec (Sys W C) (Failure E) A
  request x op s =
      let (r, w) = op s.world in (raw_outcome r, record s { world = w; trace = x ∷ s.trace })

  -- The same where the code inspects the error.
  abbrev pub try_query : Op W E A → Exec (Sys W C) (Failure E) (Result E A)
  try_query op s = let (r, w) = op s.world in (ok r, record s { world = w })

  abbrev pub try_request : Write → Op W E A → Exec (Sys W C) (Failure E) (Result E A)
  try_request x op s =
      let (r, w) = op s.world in (ok r, record s { world = w; trace = x ∷ s.trace })

module _ {W C O F A : Type 0} where
  -- An action of the process in a reconciler that holds an object.
  abbrev pub on_sys : Exec (Sys W C) F A → Exec (Held W C O) F A
  on_sys m h = let (o, s) = m h.sys in (o, record h { sys = s })

module _ {W C O F : Type 0} where
  abbrev pub modify : (O → O) → Exec (Held W C O) F (Unit {0})
  modify f h = (ok tt, record h { object = f h.object })

  abbrev pub the_object : Exec (Held W C O) F O
  the_object h = (ok h.object, h)

module _ {W C O F A : Type 0} where
  -- Runs a reconciler's part that holds `x`, from a process that holds nothing.
  abbrev pub holding : O → Exec (Held W C O) F A → Exec (Sys W C) F A
  holding x m s = let (o, h) = m (record { sys = s; object = x }) in (o, h.sys)
