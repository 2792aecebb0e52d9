-- ===== src/Machine/Provision/Sent.antt =====
-- What provisioning in kwokmachine_controller.go has sent to the workload cluster when it succeeds.
use cluster_api_provider_kwo.Prelude.{
  ap, ◌∙◌, ◌⊎◌, Bool, true, false, if◌then◌else◌, ℕ, ◌≡◌, refl, inl, inr, arith, IsElem, ◌∷◌, List,
  String, subst, sym, Option, none, some,
}
use cluster_api_provider_kwo.Exec.{
  value, error, raise, ok, Result, Outcome, Exec, map_err, pure, ◌>>=◌,
}
use cluster_api_provider_kwo.Exec.Inversion.{ok-injective, >>=-eq_ok, map_err_outcome-eq_ok}
use cluster_api_provider_kwo.Api.Meta.{CtrlResult, requeue_after_seconds}
use cluster_api_provider_kwo.Api.Core.{Cluster, Machine}
use cluster_api_provider_kwo.Api.Workload.{Node}
use cluster_api_provider_kwo.Api.Kwok.{KwokMachine}
use cluster_api_provider_kwo.Kube.{
  getting_existing_node, Kube, Failure, wrap, Write, create_node, update_node_status,
  updating_node_status, ensuring_node_lease,
}
use cluster_api_provider_kwo.Kube.Session.{
  query, raw_outcome-eq_ok, Sys, Held, request, on_sys, modify,
}
use cluster_api_provider_kwo.Machine.ProviderId.{provider_id_of}
use cluster_api_provider_kwo.Machine.Node.{kubelet_version, new_node, ready_status}
use cluster_api_provider_kwo.Machine.Lease.{ensure_node_lease}
use cluster_api_provider_kwo.Machine.Lease.Ends.{IsRenewed, ensure_node_lease-IsRenewed}
use cluster_api_provider_kwo.Machine.Lease.Trace.{ensure_node_lease-IsElem}
use cluster_api_provider_kwo.Machine.Heartbeat.{cluster_scoped, workload_client}
use cluster_api_provider_kwo.Machine.Provision.Atomic.{reconcile_normal-unset}
use cluster_api_provider_kwo.Machine.Provision.{
  after_create_node, report_node, provision_on, provision_node, provision_given, provision,
  provisioned, with_finalizer, reconcile_normal,
}

module _ {W E C : Type 0} (kube : Kube W E C) (fuel : ℕ) (cluster : Cluster)
    (machine : Machine) where
  -- The API server gave the node of the machine: as the answer to its creation, or to a `Get`.
  abbrev pub IsNodeOf : C → Node → Type 0
  IsNodeOf client node =
      let n = machine.metadata.name in
      ((w : W) × (((kube.nodes client).create (new_node n (provider_id_of n)) w).0 ≡ value node))
      ⊎ ((w : W) × (((kube.nodes client).get (cluster_scoped n) w).0 ≡ value node))

  -- The node was created, or asked for; its status was set, and the API server accepted it; and its
  -- lease was renewed last.
  pub record IsProvisionedBy (writes : List Write) : Type 0 where
    pub created :
        let n = machine.metadata.name in IsElem (create_node (new_node n (provider_id_of n))) writes
    pub client : C
    pub node : Node
    pub origin : IsNodeOf client node
    pub time : W
    pub reported :
        IsElem
          (update_node_status
            (record node { status = ready_status (kubelet_version machine) (kube.now time).0 }))
          writes
    pub sent_in : W
    pub accepted :
        ((kube.nodes client).update_status
          (record node { status = ready_status (kubelet_version machine) (kube.now time).0 })
          sent_in).0
        ≡ value tt
    pub renewed : IsRenewed kube client machine.metadata.name writes

  report_node-IsProvisionedBy :
      (client : C) (w : W) (node : Node) (s : Sys W C)
      → (let n = machine.metadata.name in
          IsElem (create_node (new_node n (provider_id_of n))) s.trace)
      → IsNodeOf client node
      → (report_node kube fuel client machine (kube.now w).0 node s).0 ≡ ok tt
      → IsProvisionedBy (report_node kube fuel client machine (kube.now w).0 node s).1.trace
  unfolding report_node
  report_node-IsProvisionedBy client w node s created origin h =
      let n = machine.metadata.name in
      let ready = record node { status = ready_status (kubelet_version machine) (kube.now w).0 } in
      let t = record s {
        world = ((kube.nodes client).update_status ready s.world).1;
        trace = update_node_status ready ∷ s.trace;
      } in
      let send : Exec (Sys W C) (Failure E) (Unit {0}) =
        map_err (wrap (updating_node_status n))
          (request (update_node_status ready) ((kube.nodes client).update_status ready)) in
      let renew : Exec (Sys W C) (Failure E) (Unit {0}) =
        map_err (wrap (ensuring_node_lease n)) (ensure_node_lease kube client n fuel) in
      let (_, sent, same, ended) = >>=-eq_ok send (λ _. renew) s h in
      subst (λ (r : Outcome (Failure E) (Unit {0}) × Sys W C). IsProvisionedBy r.1.trace) (sym same)
        (record {
          created = ensure_node_lease-IsElem kube client n _ fuel t (inr created);
          client = client;
          node = node;
          origin = origin;
          time = w;
          reported = ensure_node_lease-IsElem kube client n _ fuel t (inl refl);
          sent_in = s.world;
          accepted = raw_outcome-eq_ok _ (map_err_outcome-eq_ok _ _ sent);
          renewed =
              ensure_node_lease-IsRenewed kube client n fuel t (map_err_outcome-eq_ok _ _ ended);
        })

  fetched-IsNodeOf :
      (client : C) (b : Bool) (f : Failure E) (s : Sys W C) {node : Node}
      → (let n = machine.metadata.name in
          (if b
              then map_err
                  (wrap (getting_existing_node n))
                  (query ((kube.nodes client).get (cluster_scoped n)))
              else raise f)
            s).0
        ≡ ok node
      → IsNodeOf client node
  fetched-IsNodeOf client true f s h =
      inr (s.world, raw_outcome-eq_ok _ (map_err_outcome-eq_ok _ _ h))
  fetched-IsNodeOf client false f s h = absurd (cc)

  after_create_node-IsNodeOf :
      (client : C) (w : W) (answer : Result E Node) (s : Sys W C) {node : Node}
      → (let n = machine.metadata.name in
          ((kube.nodes client).create (new_node n (provider_id_of n)) w).0)
        ≡ answer
      → (after_create_node kube client machine.metadata.name answer s).0 ≡ ok node
      → IsNodeOf client node
  unfolding after_create_node
  after_create_node-IsNodeOf client w (value created) s answered h =
      inl (w, answered ∙ ap value (ok-injective h))
  after_create_node-IsNodeOf client w (error e) s answered h =
      fetched-IsNodeOf client (kube.is_already_exists e) _ s h

  trace-after_create_node :
      (client : C) (n : String) (answer : Result E Node) (s : Sys W C)
      → (after_create_node kube client n answer s).1.trace ≡ s.trace
  unfolding after_create_node
  trace-after_create_node client n answer s = ground arith

  provision_on-IsProvisionedBy :
      (client : C) (s : Sys W C)
      → (provision_on kube fuel client machine s).0 ≡ ok tt
      → IsProvisionedBy (provision_on kube fuel client machine s).1.trace
  unfolding provision_on
  provision_on-IsProvisionedBy client s h =
      let n = machine.metadata.name in
      let (now, w) = kube.now s.world in
      let wanted = new_node n (provider_id_of n) in
      let (answer, w') = (kube.nodes client).create wanted w in
      let t = record s { world = w'; trace = create_node wanted ∷ s.trace } in
      let (node, given, same, ended) =
        >>=-eq_ok (after_create_node kube client n answer)
          (λ node. report_node kube fuel client machine now node) t h in
      subst (λ (r : Outcome (Failure E) (Unit {0}) × Sys W C). IsProvisionedBy r.1.trace) (sym same)
        (report_node-IsProvisionedBy client s.world node
          (after_create_node kube client n answer t).1
          (rw (trace-after_create_node client n answer t) (inl refl))
          (after_create_node-IsNodeOf client w answer t refl given) ended)

  provision_node-IsProvisionedBy :
      (s : Sys W C)
      → (provision_node kube fuel cluster machine s).0 ≡ ok tt
      → IsProvisionedBy (provision_node kube fuel cluster machine s).1.trace
  unfolding provision_node
  provision_node-IsProvisionedBy s h =
      let (client, _, same, ended) =
        >>=-eq_ok (workload_client kube cluster) (λ client. provision_on kube fuel client machine) s
          h in
      subst (λ (r : Outcome (Failure E) (Unit {0}) × Sys W C). IsProvisionedBy r.1.trace) (sym same)
        (provision_on-IsProvisionedBy client (workload_client kube cluster s).1 ended)

  provision_given-IsProvisionedBy :
      (secret : Option String) (h : Held W C KwokMachine)
      → (provision_given kube fuel cluster machine secret h).0 ≡ ok (requeue_after_seconds 30)
      → IsProvisionedBy (provision_given kube fuel cluster machine secret h).1.sys.trace
  unfolding provision_given
  provision_given-IsProvisionedBy none h e = absurd (ground arith)
  provision_given-IsProvisionedBy (some secret) h e =
      let send : Exec (Held W C KwokMachine) (Failure E) (Unit {0}) =
        on_sys (provision_node kube fuel cluster machine) in
      let rest : Exec (Held W C KwokMachine) (Failure E) CtrlResult =
        modify (provisioned machine.metadata.name) >>= λ _. pure (requeue_after_seconds 30) in
      let (_, sent, same, _) = >>=-eq_ok send (λ _. rest) h e in
      subst
        (λ (r : Outcome (Failure E) CtrlResult × Held W C KwokMachine).
          IsProvisionedBy r.1.sys.trace)
        (sym same) (provision_node-IsProvisionedBy h.sys sent)

  -- If a machine without a provider ID is asked to be called again after 30 seconds, then a node with
  -- its name and its provider ID was requested in the workload cluster, the node that the API server
  -- gave was given the ready status with the machine's version, which the API server accepted, and
  -- the newest write created or renewed the lease of the node and was accepted too.
  pub reconcile_normal-IsProvisionedBy :
      (h : Held W C KwokMachine)
      → h.object.spec.provider_id ≡ ""
      → (reconcile_normal kube fuel cluster machine h).0 ≡ ok (requeue_after_seconds 30)
      → IsProvisionedBy (reconcile_normal kube fuel cluster machine h).1.sys.trace
  reconcile_normal-IsProvisionedBy h unset e =
      let m = with_finalizer kube h.object in
      let same = reconcile_normal-unset kube fuel cluster machine h unset in
      subst
        (λ (r : Outcome (Failure E) CtrlResult × Held W C KwokMachine).
          IsProvisionedBy r.1.sys.trace)
        (sym same)
        (unfold provision in
          provision_given-IsProvisionedBy machine.spec.bootstrap.data_secret_name
            (record h { object = m }) (rw same at e))
