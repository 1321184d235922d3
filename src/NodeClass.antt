-- ===== src/NodeClass.antt =====
-- pkg/controllers/nodeclass: the status of a node class, and the finalizer that holds it back while
-- NodeClaims use it. An answer is the seconds after which a controller runs again, 0 for no wish, and
-- the errors that are not nil.
pub mod Readiness
pub mod Finalizer
pub mod Status
pub mod Cluster
use karpenter_provider_tke.Prelude.{
  ℕ, String, ◌==◌, Bool, true, false, not, ◌&&◌, Option, none, some, List, [], ◌∷◌, ◌++◌, map,
  if◌then◌else◌, keep_if, any_of, is_empty, ℤ, ltb_ℤ, eqb_ℤ, Error, Result, ok, err, plain,
  not_found, conflict,
}
use karpenter_provider_tke.Labels
use karpenter_provider_tke.Zone.{ZoneProvider}
use karpenter_provider_tke.InstanceType.Offerings.{id_or_blank}

-- a subnet of the cloud, with its free addresses
pub record VpcSubnet : Type 0 where
  pub subnet_id : String
  pub zone : String
  pub available_ip_address_count : ℤ

-- api.Subnet
pub record Subnet : Type 0 where
  pub id : String
  pub zone : String
  pub zone_id : String

pub data Ready : Type 0 where
  unknown ready : Ready
  not_ready : String → Ready

-- TKEMachineNodeClass, the fields that the two controllers use
pub record NodeClass : Type 0 where
  pub name : String
  pub finalizers : List String
  pub deletion : Option ℕ
  pub subnets : List Subnet
  pub security_groups : List String
  pub ssh_keys : List String
  pub condition : Ready

-- the `less` of the subnets: more free addresses first, and then by ID
unfoldable pub is_before : (String → String → Bool) → VpcSubnet → VpcSubnet → Bool
is_before before a b =
    if not (eqb_ℤ a.available_ip_address_count b.available_ip_address_count)
    then ltb_ℤ b.available_ip_address_count a.available_ip_address_count
    else before a.subnet_id b.subnet_id

-- What the status controller calls: the zone names, the cloud's lists for a node class, and sort.Slice.
pub record Cloud : Type 0 where
  pub zones : ZoneProvider
  pub list_subnets : NodeClass → Result (List VpcSubnet)
  pub list_security_groups : NodeClass → Result (List String)
  pub list_ssh_keys : NodeClass → Result (List String)
  -- the order of IDs by `<` on texts
  pub before : String → String → Bool
  pub sort_subnets : (VpcSubnet → VpcSubnet → Bool) → List VpcSubnet → List VpcSubnet
  pub sort_ids : (String → String → Bool) → List String → List String

abbrev pub Outcome : Type 0
Outcome = Result ℕ × NodeClass

module _ (cloud : Cloud) where
  abbrev pub to_status : VpcSubnet → Subnet
  to_status n = record {
    id = n.subnet_id;
    zone = n.zone;
    zone_id = id_or_blank (cloud.zones.id_from_zone n.zone);
  }

  -- Subnet.Reconcile
  unfoldable pub reconcile_subnets : NodeClass → Outcome
  reconcile_subnets nc = elim (cloud.list_subnets nc) [
    | err e ↦ (err e, nc)
    | ok [] ↦ (ok 0, record nc { subnets = [] })
    | ok (n ∷ ns) ↦ (
      ok 60,
      record nc { subnets = map to_status (cloud.sort_subnets (is_before cloud.before) (n ∷ ns)) },
    )
  ]

  -- SecurityGroup.Reconcile
  unfoldable pub reconcile_security_groups : NodeClass → Outcome
  reconcile_security_groups nc = elim (cloud.list_security_groups nc) [
    | err e ↦ (err e, nc)
    | ok [] ↦ (ok 0, record nc { security_groups = [] })
    | ok (g ∷ gs) ↦ (ok 60, record nc { security_groups = cloud.sort_ids cloud.before (g ∷ gs) })
  ]

  -- SSHKey.Reconcile
  unfoldable pub reconcile_ssh_keys : NodeClass → Outcome
  reconcile_ssh_keys nc = elim (cloud.list_ssh_keys nc) [
    | err e ↦ (err e, nc)
    | ok [] ↦ (ok 0, record nc { ssh_keys = [] })
    | ok (k ∷ ks) ↦ (ok 60, record nc { ssh_keys = cloud.sort_ids cloud.before (k ∷ ks) })
  ]

  -- the condition that Readiness.Reconcile sets
  unfoldable pub condition_of : List Subnet → List String → Ready
  condition_of subnets groups =
      if is_empty subnets
      then not_ready "Failed to resolve subnets"
      else if is_empty groups
      then not_ready "Failed to resolve security groups"
      else ready

  -- Readiness.Reconcile
  unfoldable pub reconcile_readiness : NodeClass → Outcome
  reconcile_readiness nc =
      (ok 0, record nc { condition = condition_of nc.subnets nc.security_groups })

  -- the four reconcilers in their order, with their answers
  unfoldable pub reconcile_status : NodeClass → List (Result ℕ) × NodeClass
  reconcile_status nc =
      let (a, subnets) = reconcile_subnets nc in
      let (b, groups) = reconcile_security_groups subnets in
      let (c, keys) = reconcile_ssh_keys groups in
      let (d, last) = reconcile_readiness keys in (a ∷ b ∷ c ∷ d ∷ [], last)

-- controllerutil.ContainsFinalizer and RemoveFinalizer, of the program's finalizer
abbrev pub contains_finalizer : NodeClass → Bool
contains_finalizer nc = any_of (λ f. f == Labels.termination_finalizer) nc.finalizers

abbrev pub remove_finalizer : NodeClass → NodeClass
remove_finalizer nc = record nc {
  finalizers = keep_if (λ f. not (f == Labels.termination_finalizer)) nc.finalizers;
}

-- What a run of the termination controller does to the cluster.
pub data Action : Type 0 where
  publish_waiting : List String → Action
  update : NodeClass → Action

-- The answer of the termination controller: the seconds, whether it asks to run again at once, the
-- error.
abbrev pub Answer : Type 0
Answer = ℕ × Bool × Result (Unit {0})

-- `claims` is the list of the NodeClaims that use a node class, by their names, and `send` is Update.
module _ (claims : NodeClass → Result (List String)) (send : NodeClass → Result (Unit {0})) where
  -- what finalize makes of the server's answer to Update; the error is wrapped before IgnoreNotFound
  abbrev answered : Result (Unit {0}) → Answer
  answered (ok u) = (0, false, ok tt)
  answered (err conflict) = (0, true, ok tt)
  answered (err not_found) = (0, false, ok tt)
  answered (err e) = (0, false, err e)

  -- finalize
  unfoldable pub finalize : NodeClass → Answer × List Action
  finalize nc = if not (contains_finalizer nc) then ((0, false, ok tt), []) else (elim (claims nc) [
    | err e ↦ ((0, false, err e), [])
    | ok (c ∷ cs) ↦ ((600, false, ok tt), publish_waiting (c ∷ cs) ∷ [])
    | ok [] ↦ (answered (send (remove_finalizer nc)), update (remove_finalizer nc) ∷ [])
  ])

  unfoldable pub by_deletion : Option ℕ → NodeClass → Answer × List Action
  by_deletion none nc = ((0, false, ok tt), [])
  by_deletion (some t) nc = finalize nc

  -- Reconcile of the termination controller
  unfoldable pub reconcile_termination : NodeClass → Answer × List Action
  reconcile_termination nc = by_deletion nc.deletion nc
