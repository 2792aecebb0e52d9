-- ===== src/Tests/MachinePool/Converge.antt =====
-- The API server of the tests answers every call on a pool's children, and a pool scales up and down.
use cluster_api_provider_kwo.Prelude.{
  ℕ, suc, ◌≤◌, String, Option-cases, ◌≡◌, refl, ap, sym, ◌∙◌, inl, inr, true, Option, none, some,
  List, [], ◌∷◌, length, IsElem, arith, eq_iff, str_eq, if◌then◌else◌,
}
use cluster_api_provider_kwo.Prelude.Dict.{lookup}
use cluster_api_provider_kwo.Prelude.Int.{pos}
use cluster_api_provider_kwo.Exec.{value, error, ok}
use cluster_api_provider_kwo.Api.Kwok.{KwokMachine, KwokMachinePool}
use cluster_api_provider_kwo.Api.Meta.{NamespacedName, CtrlResult}
use cluster_api_provider_kwo.Kube.{Kube, Client}
use cluster_api_provider_kwo.MachinePool.Child.Names.{machine_name-injective}
use cluster_api_provider_kwo.MachinePool.Delete.Waits.{IsDeletedOrGone}
use cluster_api_provider_kwo.MachinePool.Child.{
  child_labels, child_key, machine_name, new_child, desired_replicas,
}
use cluster_api_provider_kwo.MachinePool.Status.{with_finalizer, with_machine_kind}
use cluster_api_provider_kwo.MachinePool.Normal.{reconcile_normal}
use cluster_api_provider_kwo.MachinePool.Normal.Reports.{started}
use cluster_api_provider_kwo.MachinePool.Converge.{HasName, IsNumberedBelow, IsConsistent}
use cluster_api_provider_kwo.MachinePool.Converge.Whole.{HasReplicas, reconcile_normal-HasReplicas}
use cluster_api_provider_kwo.Tests.Fake.{
  World, Status, Target, if_there, not_found, fake_kube, the_cluster, the_machine_pool, at_key,
  key_of, find, select, found, has_labels,
}
use cluster_api_provider_kwo.Tests.MachinePool.{the_pool, with_machines}

abbrev pub pool : KwokMachinePool
pool = started fake_kube the_cluster the_machine_pool the_pool

abbrev pub labels : List (String × String)
labels = child_labels fake_kube the_cluster the_machine_pool

abbrev pub IsFit : KwokMachine → Type 0
IsFit x =
    (str_eq "default" x.metadata.namespace ≡ true) × (has_labels labels x.metadata.labels ≡ true)

abbrev pub AreFit : List KwokMachine → Type 0
AreFit [] = Unit {0}
AreFit (x ∷ xs) = IsFit x × AreFit xs

abbrev pub AreApart : List KwokMachine → Type 0
AreApart [] = Unit {0}
AreApart (x ∷ xs) =
    ((y : KwokMachine) → IsElem y xs → ¬ (y.metadata.name ≡ x.metadata.name)) × AreApart xs

abbrev pub IsStored : List KwokMachine → World → Type 0
IsStored xs w = (w.kwok_machines ≡ xs) × AreFit xs × AreApart xs

abbrev pub at : String → NamespacedName
at name = record { namespace = "default"; name = name }

find-none :
    (name : String) (xs : List KwokMachine)
    → ((x : KwokMachine) → IsElem x xs → ¬ (x.metadata.name ≡ name))
    → find (λ (o : KwokMachine). o.metadata) (at name) xs ≡ none
find-none name [] h = refl
find-none name (x ∷ xs) h = ground (
  arith,
  find-none name xs (λ y has. h y (inr has)),
  eq_iff name x.metadata.name,
  (λ (e : name ≡ x.metadata.name). h x (inl refl) (sym e)),
)

pub select-AreFit :
    (xs : List KwokMachine)
    → AreFit xs
    → select (λ (o : KwokMachine). o.metadata) "default" labels xs ≡ xs
select-AreFit [] h = refl
select-AreFit (x ∷ xs) ((here, labelled), rest) =
    ground (arith, here, labelled, select-AreFit xs rest)

-- Deletions in the foreground: they mark the object, which has a finalizer from then on.
abbrev marked_at : NamespacedName → KwokMachine → KwokMachine
marked_at key x = record x {
  metadata = record x.metadata {
    deletion_timestamp = if at_key key x.metadata then some 0 else x.metadata.deletion_timestamp;
  };
}

abbrev mark : NamespacedName → List KwokMachine → List KwokMachine
mark key [] = []
mark key (x ∷ xs) = marked_at key x ∷ mark key xs

abbrev marking : Client World Status KwokMachine
marking = record fake_kube.machines {
  delete = λ x w.
      if_there (λ (o : KwokMachine). o.metadata)
        (find (λ (o : KwokMachine). o.metadata) (key_of x.metadata) w.kwok_machines)
        (value tt, record w { kwok_machines = mark (key_of x.metadata) w.kwok_machines })
        (error not_found, w);
}

abbrev pub marking_kube : Kube World Status Target
marking_kube = record fake_kube { machines = marking }

length-mark : (key : NamespacedName) (xs : List KwokMachine) → length (mark key xs) ≡ length xs
length-mark key [] = refl
length-mark key (x ∷ xs) = ap suc (length-mark key xs)

mark-AreFit : (key : NamespacedName) (xs : List KwokMachine) → AreFit xs → AreFit (mark key xs)
mark-AreFit key [] h = h
mark-AreFit key (x ∷ xs) (fit, rest) = (fit, mark-AreFit key xs rest)

IsElem-mark :
    (key : NamespacedName) (y : KwokMachine) (xs : List KwokMachine)
    → IsElem y (mark key xs)
    → (x : KwokMachine) × IsElem x xs × (y.metadata.name ≡ x.metadata.name)
IsElem-mark key y [] has = absurd has
IsElem-mark key y (x ∷ xs) (inl same) =
    (x, inl refl, ap (λ (o : KwokMachine). o.metadata.name) same)
IsElem-mark key y (x ∷ xs) (inr has) =
    let (z, has', name) = IsElem-mark key y xs has in (z, inr has', name)

mark-AreApart :
    (key : NamespacedName) (xs : List KwokMachine) → AreApart xs → AreApart (mark key xs)
mark-AreApart key [] h = h
mark-AreApart key (x ∷ xs) (apart, rest) = (
  λ y has same. let (z, has', name) = IsElem-mark key y xs has in apart z has' (sym name ∙ same),
  mark-AreApart key xs rest,
)

marks :
    (children : List KwokMachine) (x : KwokMachine) (w : World)
    → IsStored children w
    → let (r, w') = marking.delete x w in
      IsDeletedOrGone marking_kube r
      × ((rest : List KwokMachine) × IsStored rest w'
          × (length rest ≤ length children)
          × (length children ≤ suc (length rest)))
marks children x w (same, fit, apart) =
    let key = key_of x.metadata in
    elim (Option-cases (find (λ (o : KwokMachine). o.metadata) key w.kwok_machines)) [
      | inl missing ↦ rw missing (refl, (children, (same, fit, apart), omega arith, omega arith))
      | inr (y, there) ↦ rw there (
        tt,
        (
          mark key children,
          (ap (mark key) same, mark-AreFit key children fit, mark-AreApart key children apart),
          omega (arith, length-mark key children),
          omega (arith, length-mark key children),
        ),
      )
    ]

abbrev pub child : ℕ → KwokMachine
child = new_child fake_kube the_cluster the_machine_pool pool

pub nobody_has :
    (i : ℕ) (children : List KwokMachine) (w : World)
    → IsStored children w
    → ¬ HasName pool i children
    → find (λ (o : KwokMachine). o.metadata) (child_key pool i) w.kwok_machines ≡ none
unfolding child_key with_machine_kind with_finalizer
nobody_has i children w (same, fit, apart) no_name =
    ap (find (λ (o : KwokMachine). o.metadata) (child_key pool i)) same
    ∙ find-none (machine_name pool i) children (λ x has e. no_name (x, has, e))

pub child-IsFit : (i : ℕ) → IsFit (child i)
unfolding child_labels new_child with_machine_kind with_finalizer lookup
child-IsFit i = (refl, refl)

pub consistent : IsConsistent marking_kube the_cluster the_machine_pool pool IsStored
unfolding new_child child_key with_machine_kind with_finalizer machine_name
consistent = record {
  lists = λ children w (same, fit, apart). (
    children,
    w,
    ap (λ (xs : List KwokMachine). (value xs, w))
        (ap (select (λ (o : KwokMachine). o.metadata) "default" labels) same
          ∙ select-AreFit children fit),
    (same, fit, apart),
    refl,
    λ child has. has,
  );
  misses = λ children i w stored no_name. (
    not_found,
    w,
    ap (λ (o : Option KwokMachine). (found (λ (o : KwokMachine). o.metadata) o, w))
        (nobody_has i children w stored no_name),
    refl,
    stored,
  );
  creates = λ children i w (same, fit, apart) no_name. (
    child i,
    record w { kwok_machines = child i ∷ children },
    ground (arith, nobody_has i children w (same, fit, apart) no_name, same),
    refl,
    (refl, (child-IsFit i, fit), (λ y has e. no_name (y, has, e), apart)),
  );
  deletes = marks;
}

-- The pool wants two children and has one.
abbrev pub one_child : List KwokMachine
one_child = child 0 ∷ []

pub one_child-IsStored : IsStored one_child (with_machines one_child).world
one_child-IsStored = (refl, (child-IsFit 0, tt), (λ y has e. has, tt))

pub one_child-IsNumberedBelow : IsNumberedBelow pool 1 one_child
unfolding new_child
one_child-IsNumberedBelow c (inl same) =
    (0, omega arith, ap (λ (o : KwokMachine). o.metadata.name) same)
one_child-IsNumberedBelow c (inr has) = absurd has

pub wants_two : desired_replicas the_machine_pool ≡ pos 2
unfolding desired_replicas
wants_two = refl

-- The pool has three.
abbrev three_children : List KwokMachine
three_children = child 0 ∷ child 1 ∷ child 2 ∷ []

numbers_apart :
    (i j : ℕ) (y : KwokMachine)
    → ¬ (j ≡ i)
    → y ≡ child j
    → ¬ (y.metadata.name ≡ (child i).metadata.name)
unfolding new_child
numbers_apart i j y differ same name =
    differ (
      machine_name-injective pool j i (sym (ap (λ (o : KwokMachine). o.metadata.name) same) ∙ name))

above_zero :
    (y : KwokMachine)
    → IsElem y (child 1 ∷ child 2 ∷ [])
    → ¬ (y.metadata.name ≡ (child 0).metadata.name)
above_zero y (inl same) = numbers_apart 0 1 y (λ e. omega (arith, e)) same
above_zero y (inr (inl same)) = numbers_apart 0 2 y (λ e. omega (arith, e)) same
above_zero y (inr (inr has)) = absurd has

above_one :
    (y : KwokMachine) → IsElem y (child 2 ∷ []) → ¬ (y.metadata.name ≡ (child 1).metadata.name)
above_one y (inl same) = numbers_apart 1 2 y (λ e. omega (arith, e)) same
above_one y (inr has) = absurd has

three_children-IsStored : IsStored three_children (with_machines three_children).world
three_children-IsStored = (
  refl,
  (child-IsFit 0, (child-IsFit 1, (child-IsFit 2, tt))),
  (above_zero, (above_one, (λ y has e. has, tt))),
)

three_children-IsNumberedBelow : IsNumberedBelow pool 3 three_children
unfolding new_child
three_children-IsNumberedBelow c (inl same) =
    (0, omega arith, ap (λ (o : KwokMachine). o.metadata.name) same)
three_children-IsNumberedBelow c (inr (inl same)) =
    (1, omega arith, ap (λ (o : KwokMachine). o.metadata.name) same)
three_children-IsNumberedBelow c (inr (inr (inl same))) =
    (2, omega arith, ap (λ (o : KwokMachine). o.metadata.name) same)
three_children-IsNumberedBelow c (inr (inr (inr has))) = absurd has

reconcile_normal-HasReplicas_example :
    let (o, h) =
      reconcile_normal marking_kube the_cluster the_machine_pool
        (record { sys = with_machines three_children; object = the_pool }) in
    (r : CtrlResult) × (o ≡ ok r) × HasReplicas IsStored 2 3 h r × (length h.sys.trace ≡ 1)
unfolding with_finalizer
reconcile_normal-HasReplicas_example =
    reconcile_normal-HasReplicas marking_kube the_cluster the_machine_pool
      (record { sys = with_machines three_children; object = the_pool }) 2 three_children consistent
      wants_two (omega arith) three_children-IsStored three_children-IsNumberedBelow
