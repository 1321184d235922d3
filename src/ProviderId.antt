-- ===== src/ProviderId.antt =====
-- pkg/controllers/nodeclaim/providerid: a NodeClaim gets the provider ID of its machine. An answer is the
-- seconds after which a controller runs again, 0 for no wish, and the error.
pub mod Cluster
pub mod Convergence
pub mod Settling
use karpenter_provider_tke.Prelude.{
  ℕ, String, ◌==◌, Bool, true, false, not, ◌&&◌, Option, none, some, List, [], ◌∷◌, if◌then◌else◌,
  insert, lookup, text_at, find_first, Result, ok, err, plain, ignore_not_found, not_found,
}
use karpenter_provider_tke.Labels
use karpenter_provider_tke.Strconv.{◌<>◌}
use karpenter_provider_tke.Kube.{
  OwnerReference, Machine, NodeClaim, Write, patch_nodeclaim_status, patch_machine_status, History,
  Kube, text_of, nodeclaim_kind,
}

abbrev pub Answer : Type 0
Answer = ℕ × Result (Unit {0})

-- `nodeClaim.Status.ProviderID = id`
abbrev pub with_provider_id : String → NodeClaim → NodeClaim
with_provider_id id nc = record nc { provider_id = id }

-- `machine.Labels[api.LabelProviderIDInitialized] = "true"`
abbrev pub initialized : Machine → Machine
initialized m = record m { labels = insert Labels.label_provider_id_initialized "true" m.labels }

-- the event filter of ControllerNodeClaim
unfoldable pub wants_nodeclaim : NodeClaim → Bool
wants_nodeclaim nc = nc.provider_id == ""

-- the event filter of ControllerMachine
unfoldable pub wants_machine : Machine → Bool
wants_machine m =
    not (text_of m.provider_id == "")
    && not (elim (m.owners) [ [] ↦ true | o ∷ os ↦ false ])
    && text_at Labels.label_provider_id_initialized m.labels == ""
    && not (text_at Labels.label_node_claim m.labels == "")

-- the ID that ControllerNodeClaim takes from a machine
unfoldable pub id_or_placeholder : Machine → String
id_or_placeholder m =
    if text_of m.provider_id == "" then "placeholder-" <> m.name else text_of m.provider_id

-- the name of the first owner that is a NodeClaim, empty without one
unfoldable pub nodeclaim_name : List OwnerReference → String
nodeclaim_name owners =
    elim (find_first (λ (o : OwnerReference). o.kind == nodeclaim_kind) owners) [
      | none ↦ ""
      | some o ↦ o.name
    ]

-- the label is there already, so that the machine is as it was
unfoldable pub is_marked : Machine → Bool
is_marked m = elim (lookup Labels.label_provider_id_initialized m.labels) [
  | none ↦ false
  | some v ↦ v == "true"
]

module _ (kube : Kube) where
  -- the patch at the end of the controllers of NodeClaims
  unfoldable pub patch_nodeclaim : NodeClaim → NodeClaim → History → Answer × History
  patch_nodeclaim stored nc h = if nc.provider_id == stored.provider_id then ((0, ok tt), h) else (
    (0, ignore_not_found (kube.write h (patch_nodeclaim_status nc))),
    patch_nodeclaim_status nc ∷ h,
  )

  -- ControllerNodeClaim.Reconcile
  unfoldable pub reconcile_nodeclaim : NodeClaim → History → Answer × History
  reconcile_nodeclaim nc h =
      if not (nc.provider_id == "")
      then ((0, ok tt), h)
      else (elim (kube.list_machines_with h Labels.label_node_claim nc.name) [
        | err e ↦ ((5, err (plain "listing machines failed: ")), h)
        | ok [] ↦ ((5, ok tt), h)
        | ok (m ∷ ms) ↦ patch_nodeclaim nc (with_provider_id (id_or_placeholder m) nc) h
      ])

  -- Controller.Reconcile, which is not registered: it waits where the other writes a placeholder.
  unfoldable pub reconcile_waiting : NodeClaim → History → Answer × History
  reconcile_waiting nc h =
      if not (nc.provider_id == "")
      then ((0, ok tt), h)
      else (elim (kube.list_machines_with h Labels.label_node_claim nc.name) [
        | err e ↦ ((30, err (plain "listing machines failed: ")), h)
        | ok [] ↦ ((30, ok tt), h)
        | ok (m ∷ ms) ↦
            if text_of m.provider_id == ""
            then ((30, ok tt), h)
            else patch_nodeclaim nc (with_provider_id (text_of m.provider_id) nc) h
      ])

  -- the second patch of ControllerMachine, of the machine's label
  unfoldable pub patch_machine : Machine → History → Answer × History
  patch_machine m h = if is_marked m then ((0, ok tt), h) else (
    (0, ignore_not_found (kube.write h (patch_machine_status (initialized m)))),
    patch_machine_status (initialized m) ∷ h,
  )

  -- the patches of ControllerMachine, the second only when the first goes well
  unfoldable pub patch_both : NodeClaim → Machine → History → Answer × History
  patch_both stored m h =
      let nc = with_provider_id (text_of m.provider_id) stored in
      if nc.provider_id == stored.provider_id
      then patch_machine m h
      else (elim (kube.write h (patch_nodeclaim_status nc)) [
        | err e ↦ ((0, ignore_not_found (err e)), patch_nodeclaim_status nc ∷ h)
        | ok u ↦ patch_machine m (patch_nodeclaim_status nc ∷ h)
      ])

  -- ControllerMachine.Reconcile
  unfoldable pub reconcile_machine : Machine → History → Answer × History
  reconcile_machine m h =
      if nodeclaim_name m.owners == ""
      then ((0, ok tt), h)
      else (elim (kube.get_nodeclaim h (nodeclaim_name m.owners)) [
        | err e ↦ ((0, ignore_not_found (err e)), h)
        | ok nc ↦ patch_both nc m h
      ])
