-- ===== src/CloudProvider/Launch.antt =====
-- The operations of pkg/cloudprovider/cloudprovider.go over the machine provider, the instance type
-- provider and the API server. An error that is wrapped with %w keeps its kind.
pub mod Refusal
pub mod Listing
use karpenter_provider_tke.Prelude.{
  ℕ, ◌*◌, ◌^◌, String, ◌==◌, Bool, true, false, not, ◌&&◌, Option, none, some, List, [], ◌∷◌,
  if◌then◌else◌, keep_if, is_empty, Error, Result, ok, err, plain, not_found, insufficient_capacity,
  text_at,
}
use karpenter_provider_tke.Labels
use karpenter_provider_tke.Kube.{Machine, NodeClaim, History}
use karpenter_provider_tke.Scheduling.{Scheduling, InstanceType, ResourceList}
use karpenter_provider_tke.Zone.{ZoneProvider}
use karpenter_provider_tke.NodeClass.{NodeClass, Ready, unknown, ready, not_ready}
use karpenter_provider_tke.InstanceType.Blacklist.{Cache, minute, block_instance_type}
use karpenter_provider_tke.CloudProvider.Conversion.{Karpenter, Decoders, machine_to_nodeclaim}

-- the part of a NodeClaim's spec that Create reads
pub record NodeClaimSpec (R : Type 0) : Type 0 where
  pub node_class_ref : String
  pub requirements : R
  pub requests : ResourceList

-- a NodePool: its namespace, and the name in its node class reference where it has one
pub record NodePool : Type 0 where
  pub namespace : String
  pub node_class_ref : Option String

-- What the machine provider's Create returns: two nil pointers and an error, or the machine, the
-- instance type of its provider spec, and perhaps an error.
pub data Creation : Type 0 where
  refused : Error → Creation
  failed : Machine → String → Error → Creation
  created : Machine → String → Creation

-- machine.Provider
pub record MachineProvider (R : Type 0) : Type 0 where
  pub get : String → History → Result (Option Machine)
  pub list : History → Result (List Machine)
  pub create :
      NodeClass → NodeClaim → NodeClaimSpec R → List (InstanceType R) → History → Creation × History
  pub delete : NodeClaim → History → Result (Unit {0}) × History

-- The API server's node classes by namespace and name, the machine provider, and List of the instance
-- type provider with the blocks and the time.
pub record Backend (R C : Type 0) : Type 0 where
  pub get_node_class : History → String → String → Result NodeClass
  pub machines : MachineProvider R
  pub list_types : C → ℕ → NodeClass → Result (List (InstanceType R))

-- cloudprovider.RepairPolicy, with the duration in nanoseconds
pub record RepairPolicy : Type 0 where
  pub condition_type : String
  pub condition_status : String
  pub toleration_duration : ℕ

-- RepairPolicies
abbrev pub repair_policies : List RepairPolicy
repair_policies =
    record {
      condition_type = "Ready";
      condition_status = "False";
      toleration_duration = 30 * minute;
    }
    ∷ record {
      condition_type = "Ready";
      condition_status = "Unknown";
      toleration_duration = 30 * minute;
    }
    ∷ []

abbrev unless_deleting : Option ℕ → NodeClass → Result NodeClass
unless_deleting none class = ok class
unless_deleting (some t) class = err not_found

module _ (s : Scheduling) (k : Karpenter s) (d : Decoders) (zones : ZoneProvider) (cache : Cache)
    (b : Backend s.Requirements cache.C) where
  open s use {Requirements, compatible, available, compatible_offerings}
  open cache use {C}

  -- resolveNodeClassFromNodeClaim
  unfoldable pub resolve_node_class_from_nodeclaim :
      History → NodeClaimSpec Requirements → Result NodeClass
  resolve_node_class_from_nodeclaim h spec = elim (b.get_node_class h "" spec.node_class_ref) [
    | err e ↦ err e
    | ok class ↦ unless_deleting class.deletion class
  ]

  -- the filter of resolveInstanceTypes
  unfoldable pub is_usable : NodeClaimSpec Requirements → InstanceType Requirements → Bool
  is_usable spec it =
      compatible spec.requirements it.requirements
      && (not (is_empty (available (compatible_offerings it.offerings spec.requirements)))
          && k.fits spec.requests (k.allocatable it.capacity it.overhead))

  -- resolveInstanceTypes
  unfoldable pub resolve_instance_types :
      C → ℕ → NodeClass → NodeClaimSpec Requirements → Result (List (InstanceType Requirements))
  resolve_instance_types c now class spec = elim (b.list_types c now class) [
    | err e ↦ err e
    | ok its ↦ ok (keep_if (is_usable spec) its)
  ]

  -- the end of Create, on what the machine provider returns
  unfoldable pub finish : ℕ → C → Creation × History → Result NodeClaim × C × History
  finish now c (refused e, h) = (err e, c, h)
  finish now c (failed m ty e, h) = (
    err e,
    block_instance_type cache c now ty (text_at Labels.capacity_type_label_key m.labels) m.zone,
    h,
  )
  finish now c (created m ty, h) = (machine_to_nodeclaim s k d zones now m, c, h)

  -- Create, from the instance types on
  unfoldable pub launch :
      ℕ
      → C
      → History
      → NodeClass
      → NodeClaim
      → NodeClaimSpec Requirements
      → Result (List (InstanceType Requirements))
      → Result NodeClaim × C × History
  launch now c h class nc spec (err e) = (err e, c, h)
  launch now c h class nc spec (ok []) = (err insufficient_capacity, c, h)
  launch now c h class nc spec (ok (it ∷ its)) =
      finish now c (b.machines.create class nc spec (it ∷ its) h)

  -- Create, from the condition of the node class on
  unfoldable pub create_in :
      ℕ
      → C
      → History
      → NodeClass
      → NodeClaim
      → NodeClaimSpec Requirements
      → Ready
      → Result NodeClaim × C × History
  create_in now c h class nc spec unknown = (err (plain "resolving tkemachinenodeclass, "), c, h)
  create_in now c h class nc spec (not_ready message) =
      (err (plain "resolving tkemachinenodeclass, "), c, h)
  create_in now c h class nc spec ready =
      launch now c h class nc spec (resolve_instance_types c now class spec)

  -- Create
  unfoldable pub create :
      ℕ → C → History → NodeClaim → NodeClaimSpec Requirements → Result NodeClaim × C × History
  create now c h nc spec = elim (resolve_node_class_from_nodeclaim h spec) [
    | err e ↦ (err insufficient_capacity, c, h)
    | ok class ↦ create_in now c h class nc spec class.condition
  ]

  -- Delete
  unfoldable pub delete : NodeClaim → History → Result (Unit {0}) × History
  delete nc h = b.machines.delete nc h

  abbrev converted : ℕ → Option Machine → Result (Option NodeClaim)
  converted now none = ok none
  converted now (some m) = elim (machine_to_nodeclaim s k d zones now m) [
    | err e ↦ err e
    | ok nc ↦ ok (some nc)
  ]

  -- Get
  unfoldable pub get : ℕ → String → History → Result (Option NodeClaim)
  get now id h =
      if id == ""
      then err (plain "no providerID supplied to Get, cannot continue")
      else (elim (b.machines.get id h) [ err e ↦ err e | ok m ↦ converted now m ])

  -- the loop of List
  unfoldable pub convert_all : ℕ → List Machine → Result (List NodeClaim)
  convert_all now [] = ok []
  convert_all now (m ∷ ms) =
      let rest = convert_all now ms in
      elim (machine_to_nodeclaim s k d zones now m) [
        | err e ↦ err e
        | ok nc ↦ elim rest [ err e ↦ err e | ok ncs ↦ ok (nc ∷ ncs) ]
      ]

  -- List
  unfoldable pub list : ℕ → History → Result (List NodeClaim)
  list now h = elim (b.machines.list h) [ err e ↦ err e | ok ms ↦ convert_all now ms ]

  -- resolveNodeClassFromNodePool
  unfoldable pub resolve_node_class_from_node_pool : History → NodePool → Result NodeClass
  resolve_node_class_from_node_pool h pool = elim pool.node_class_ref [
    | none ↦ err (plain "node class reference is nil, no way to proceed")
    | some name ↦
        if name == ""
        then err (plain "node class reference name is empty, no way to proceed")
        else b.get_node_class h pool.namespace name
  ]

  -- GetInstanceTypes, of a pointer to a NodePool
  unfoldable pub get_instance_types :
      C → ℕ → History → Option NodePool → Result (List (InstanceType Requirements))
  get_instance_types c now h none = err (plain "node pool reference is nil, no way to proceed")
  get_instance_types c now h (some pool) = elim (resolve_node_class_from_node_pool h pool) [
    | err e ↦ err e
    | ok class ↦ b.list_types c now class
  ]
