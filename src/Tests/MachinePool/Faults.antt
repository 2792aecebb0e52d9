-- ===== src/Tests/MachinePool/Faults.antt =====
-- A pool at the API server of the tests while it refuses every creation.
use cluster_api_provider_kwo.Prelude.{
  ℕ, String, Bool-cases, Option-cases, ◌⊎◌, ◌≡◌, refl, ap, sym, subst, ◌∙◌, inl, inr, Bool, false,
  some, List, [], ◌∷◌, length, IsElem, arith, eq_iff, if◌then◌else◌,
}
use cluster_api_provider_kwo.Exec.{Result, value, error}
use cluster_api_provider_kwo.Api.Kwok.{KwokMachine}
use cluster_api_provider_kwo.Kube.{Kube, Client}
use cluster_api_provider_kwo.MachinePool.Child.{child_key, machine_name, new_child}
use cluster_api_provider_kwo.MachinePool.Status.{with_finalizer, with_machine_kind}
use cluster_api_provider_kwo.MachinePool.Normal.{reconcile_normal}
use cluster_api_provider_kwo.MachinePool.Converge.{HasName}
use cluster_api_provider_kwo.MachinePool.Converge.Faults.{IsFaithful, IsGapless}
use cluster_api_provider_kwo.MachinePool.Converge.Gapless.{reconcile_normal-IsGapless}
use cluster_api_provider_kwo.Tests.Fake.{
  World, Status, unavailable, Target, is_taken, at_key, fake_kube, the_cluster, the_machine_pool,
  find, found, select,
}
use cluster_api_provider_kwo.Tests.MachinePool.{the_pool, with_machines}
use cluster_api_provider_kwo.Tests.MachinePool.Converge.{
  pool, labels, IsStored, at, child, select-AreFit, one_child, one_child-IsStored,
  one_child-IsNumberedBelow, wants_two, consistent,
}

-- Nothing is created while the world is not running.
abbrev flaky : Client World Status KwokMachine
flaky = record fake_kube.machines {
  create = λ x w. if w.running then fake_kube.machines.create x w else (error unavailable, w);
}

abbrev pub flaky_kube : Kube World Status Target
flaky_kube = record fake_kube { machines = flaky }

find-some :
    (name : String) (xs : List KwokMachine) {c : KwokMachine}
    → find (λ (o : KwokMachine). o.metadata) (at name) xs ≡ some c
    → IsElem c xs × (c.metadata.name ≡ name)
find-some name [] h = absurd (cc)
find-some name (x ∷ xs) {c} h = elim (Bool-cases (at_key (at name) x.metadata)) [
  | inl here ↦
      let same : x ≡ c = ground (arith, here) in
      (
        inl (sym same),
        ap (λ (o : KwokMachine). o.metadata.name) (sym same)
            ∙ ground (arith, here, eq_iff name x.metadata.name),
      )
  | inr other ↦ let (has, named) = find-some name xs (rw other at h) in (inr has, named)
]

finds_child :
    (i : ℕ) (xs : List KwokMachine) (w : World) {c : KwokMachine}
    → w.kwok_machines ≡ xs
    → ◌≡◌ {A = Result Status KwokMachine}
        (found
          (λ (o : KwokMachine). o.metadata)
          (find (λ (o : KwokMachine). o.metadata) (child_key pool i) w.kwok_machines))
        (value c)
    → HasName pool i xs
unfolding child_key with_finalizer with_machine_kind
finds_child i xs w {c} same h =
    elim (Option-cases (find (λ (o : KwokMachine). o.metadata) (at (machine_name pool i)) xs)) [
      | inl missing ↦ absurd (cc (h, same, missing))
      | inr (y, there) ↦
          let (has, named) = find-some (machine_name pool i) xs there in (y, has, named)
    ]

abbrev IsMadeOrRefused : ℕ → List KwokMachine → Result Status KwokMachine × World → Type 0
IsMadeOrRefused i children (r, w) =
    ((c : KwokMachine) × (c.metadata.name ≡ machine_name pool i) × IsStored (c ∷ children) w)
    ⊎ (IsStored children w × ((e : Status) × (r ≡ error e) × (is_taken e ≡ false)))

creates_or_refuses :
    (children : List KwokMachine) (i : ℕ) (w : World)
    → IsStored children w
    → ¬ HasName pool i children
    → IsMadeOrRefused i children (flaky.create (child i) w)
unfolding new_child
creates_or_refuses children i w stored no_name =
    let answer =
      λ (b : Bool). if b then fake_kube.machines.create (child i) w else (error unavailable, w) in
    elim (Bool-cases w.running) [
      | inl running ↦
          let (c, w', made, named, stored') = consistent.creates children i w stored no_name in
          subst (IsMadeOrRefused i children) (sym (ap answer running ∙ made))
            (inl (c, named, stored'))
      | inr stopped ↦
          subst (IsMadeOrRefused i children) (sym (ap answer stopped))
            (inr (stored, (unavailable, refl, refl)))
    ]

value-injective : {E A : Type 0} {a b : A} → ◌≡◌ {A = Result E A} (value a) (value b) → a ≡ b
value-injective e = cc

pub server : IsFaithful flaky_kube the_cluster the_machine_pool pool IsStored
unfolding new_child with_machine_kind with_finalizer
server = record {
  lists = λ children w (same, fit, apart). (
    (same, fit, apart),
    λ items listed. ap length (
        sym (value-injective listed)
        ∙ ap (select (λ (o : KwokMachine). o.metadata) "default" labels) same
        ∙ select-AreFit children fit),
  );
  gets = λ children i w (same, fit, apart).
      ((same, fit, apart), λ c got. finds_child i children w {c = c} same got);
  creates = λ children i w stored no_name. creates_or_refuses children i w stored no_name;
}

reconcile_normal-IsGapless_example :
    IsGapless pool IsStored 1 2
      (reconcile_normal flaky_kube the_cluster the_machine_pool
        (record { sys = with_machines one_child; object = the_pool })).1.sys.world
unfolding with_finalizer
reconcile_normal-IsGapless_example =
    reconcile_normal-IsGapless flaky_kube the_cluster the_machine_pool
      (record { sys = with_machines one_child; object = the_pool }) 2 one_child server wants_two
      (omega arith) one_child-IsStored one_child-IsNumberedBelow
