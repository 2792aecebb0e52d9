-- ===== src/Tests/MachinePool/Labels.antt =====
-- The deletion of a pool of kwokmachinepool_controller.go whose children have another label.
use cluster_api_provider_kwo.Prelude.{
  ◌≡◌, ◌≢◌, refl, Bool, true, false, ◌&&◌, Option, none, some, arith, eq_iff, String, inl, inr,
  subst, sym, str_eq, if◌then◌else◌, List, [], ◌∷◌, IsElem,
}
use cluster_api_provider_kwo.Prelude.Dict.{lookup}
use cluster_api_provider_kwo.Exec.{Result, value}
use cluster_api_provider_kwo.Api.Kwok.{KwokMachine}
use cluster_api_provider_kwo.Kube.{delete_machine}
use cluster_api_provider_kwo.MachinePool.Child.{child_labels, new_child}
use cluster_api_provider_kwo.MachinePool.Delete.{reconcile_delete}
use cluster_api_provider_kwo.MachinePool.Delete.Labels.{
  HasLabels, ListsByLabels, children_survive_deletion,
}
use cluster_api_provider_kwo.Tests.Fake.{
  has_labels, select, Status, fake_kube, the_cluster, the_machine_pool,
}
use cluster_api_provider_kwo.Prelude.Dict.{lookup}
use cluster_api_provider_kwo.Tests.MachinePool.{the_pool, the_child, holding_pool}

has_labels-HasLabels :
    (labels : List (String × String)) (m : KwokMachine)
    → has_labels labels m.metadata.labels ≡ true
    → HasLabels labels m
has_labels-HasLabels [] m h = tt
has_labels-HasLabels ((k, v) ∷ labels) m h = (
  go (lookup k m.metadata.labels) h,
  has_labels-HasLabels labels m (rest (lookup k m.metadata.labels) h),
)
  where
    go :
        (o : Option String)
        → (elim o [ none ↦ false | some v' ↦ str_eq v v' && has_labels labels m.metadata.labels ])
          ≡ true
        → o ≡ some v
    go none e = absurd (cc)
    go (some v') e = ground (arith, eq_iff v v')

    rest :
        (o : Option String)
        → (elim o [ none ↦ false | some v' ↦ str_eq v v' && has_labels labels m.metadata.labels ])
          ≡ true
        → has_labels labels m.metadata.labels ≡ true
    rest none e = absurd (cc)
    rest (some v') e = ground arith

select-HasLabels :
    (namespace : String) (labels : List (String × String)) (xs : List KwokMachine) (m : KwokMachine)
    → IsElem m (select (λ (o : KwokMachine). o.metadata) namespace labels xs)
    → HasLabels labels m
select-HasLabels namespace labels [] m among = absurd among
select-HasLabels namespace labels (x ∷ xs) m among =
    go _ refl (select-HasLabels namespace labels xs m) among
  where
    go :
        (b : Bool)
        → (str_eq namespace x.metadata.namespace && has_labels labels x.metadata.labels) ≡ b
        → (IsElem m (select (λ (o : KwokMachine). o.metadata) namespace labels xs)
            → HasLabels labels m)
        → (let rest = select (λ (o : KwokMachine). o.metadata) namespace labels xs in
            IsElem m (if b then x ∷ rest else rest))
        → HasLabels labels m
    go true e later (inl same) =
        subst (HasLabels labels) (sym same) (has_labels-HasLabels labels x (ground arith))
    go true e later (inr among') = later among'
    go false e later among' = later among'

matches : ListsByLabels fake_kube
matches namespace labels w items listed m among =
    select-HasLabels namespace labels w.kwok_machines m
      (subst (IsElem m) (sym (value-injective listed)) among)
  where
    value-injective : {A : Type 0} {a b : A} → ◌≡◌ {A = Result Status A} (value a) (value b) → a ≡ b
    value-injective e = cc

keys_differ : fake_kube.cluster_name_label ≢ fake_kube.machine_pool_name_label
keys_differ e =
    absurd (ground (arith, eq_iff fake_kube.cluster_name_label fake_kube.machine_pool_name_label))

names_differ : the_machine_pool.metadata.name ≢ the_pool.metadata.name
names_differ e =
    absurd (ground (arith, eq_iff the_machine_pool.metadata.name the_pool.metadata.name))

-- The deletion of the pool finds no child and lets the pool go.
-- The child after the controller of the KwokMachine has provisioned it.
abbrev grown : KwokMachine
unfolding new_child
grown = record (the_child 0) {
  metadata = record (the_child 0).metadata {
    uid = "1";
    finalizers = "kwokmachine.infrastructure.cluster.x-k8s.io" ∷ [];
  };
  spec = record (the_child 0).spec { provider_id = "kwok:////kwok-workers-0" };
}

grown-HasLabels : HasLabels (child_labels fake_kube the_cluster the_machine_pool) grown
unfolding new_child child_labels lookup
grown-HasLabels = (refl, (refl, tt))

children_survive_deletion_example :
    HasLabels
      (child_labels fake_kube the_cluster the_machine_pool)
      (new_child fake_kube the_cluster the_machine_pool the_pool 0)
    × ¬ IsElem
        (delete_machine grown)
        (reconcile_delete fake_kube (holding_pool (grown ∷ []))).1.sys.trace
children_survive_deletion_example =
    children_survive_deletion fake_kube the_cluster the_machine_pool the_pool 0 grown
      (holding_pool (grown ∷ [])) matches keys_differ names_differ grown-HasLabels
      (λ none_sent. none_sent)
