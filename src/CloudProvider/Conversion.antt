-- ===== src/CloudProvider/Conversion.antt =====
-- machineToNodeClaim and resolveMachineToInstanceType of pkg/cloudprovider/cloudprovider.go.
use karpenter_provider_tke.Prelude.{
  ℕ, String, ◌==◌, Bool, true, not, Option, none, some, List, [], ◌∷◌, ◌++◌, map, if◌then◌else◌,
  keep_if, ℤ, pos, eqb_ℤ, Result, ok, err, plain, ◌>>=◌, Dict, lookup, insert, text_at,
}
use karpenter_provider_tke.Labels
use karpenter_provider_tke.Strconv.{◌<>◌, atoi}
use karpenter_provider_tke.Kube.{Machine, NodeClaim, text_of}
use karpenter_provider_tke.Scheduling.{
  Scheduling, operator_in, Offering, Overhead, InstanceType, Quantity, ResourceList,
}
use karpenter_provider_tke.Zone.{ZoneProvider}
use karpenter_provider_tke.InstanceType.Level.{Float64}
use karpenter_provider_tke.InstanceType.Capacity.{InstanceTypeQuotaItem}
use karpenter_provider_tke.InstanceType.Overhead.{Quantities, Percentages}
use karpenter_provider_tke.InstanceType.New.{new_instance_type}
use karpenter_provider_tke.InstanceType.Offerings.{id_or_blank}
use karpenter_provider_tke.Machines.Annotations.{set_if, set_all, resource_list_from_annotations}

-- What the cloud provider uses of Karpenter besides Scheduling: iteration over requirements, the
-- value of a requirement with Len() == 1, resources.Fits, and Allocatable() by the capacity and the
-- overhead.
pub record Karpenter (s : Scheduling) : Type 0 where
  pub entries : s.Requirements → List (String × s.Requirement)
  pub single : s.Requirement → Option String
  pub fits : ResourceList → ResourceList → Bool
  pub allocatable : ResourceList → Overhead → ResourceList

-- The decoding of provider specs (their instance type, an error also where the spec is nil and reading it
-- panics), resource.MustParse with `none` where it panics, strconv.ParseFloat, the test of a machine's
-- kubelet version, and what NewInstanceType takes.
pub record Decoders : Type 1 where
  pub instance_type_of : String → Result String
  pub parse_quantity : String → Option Quantity
  pub parse_price : String → Option ℕ
  pub above_1_29 : Machine → Bool
  pub fl : Float64
  pub vm_memory_overhead : fl.F
  pub quantities : Quantities
  pub percentages : Percentages fl

abbrev pub or_error {ℓ} : {A : Type ℓ} → String → Option A → Result A
or_error text none = err (plain text)
or_error text (some a) = ok a

-- lo.PickBy with resourceFilter
abbrev pub non_zero : ResourceList → ResourceList
non_zero r = keep_if (λ (e : String × Quantity). not (eqb_ℤ e.1 (pos 0))) r

abbrev pub resources_of : Decoders → String → Machine → Result ResourceList
resources_of d group m =
    or_error "panic" (resource_list_from_annotations d.parse_quantity group m.annotations)

unfoldable pub overhead_of : Decoders → Machine → Result Overhead
overhead_of d m = do
  kube ← resources_of d Labels.kube_reserved_group m
  system ← resources_of d Labels.system_reserved_group m
  eviction ← resources_of d Labels.eviction_threshold_group m
  ok (record { kube_reserved = kube; system_reserved = system; eviction_threshold = eviction })

-- capiv1beta1.PhaseDeleting
abbrev pub phase_deleting : String
phase_deleting = "Deleting"

module _ (s : Scheduling) (k : Karpenter s) (d : Decoders) (zones : ZoneProvider) where
  open s use {Requirements, new_requirement, new_requirements}

  -- the one offering of a machine
  unfoldable pub machine_offering : Machine → ℕ → Offering Requirements
  machine_offering m price =
      let one = λ (key word : String). new_requirement key operator_in (word ∷ []) in
      record {
        requirements = new_requirements (
            one Labels.capacity_type_label_key (text_at Labels.capacity_type_label_key m.labels)
            ∷ one Labels.label_topology_zone (id_or_blank (zones.id_from_zone m.zone))
            ∷ one Labels.label_cbs_toplogy m.zone
            ∷ []);
        price = price;
        available = true;
      }

  -- the item that resolveMachineToInstanceType fills; what it does not set is zero.
  abbrev pub machine_item : Machine → String → ℤ → ℤ → ℕ → InstanceTypeQuotaItem
  machine_item m ty cpu memory price = record {
    zone = m.zone;
    instance_family = text_at Labels.label_instance_family m.labels;
    instance_type = ty;
    cpu = cpu;
    memory = memory;
    gpu = pos 0;
    inventory = pos 0;
    status = "";
    unit_price = price;
    arch = text_at Labels.label_arch_stable m.labels;
  }

  -- the end of resolveMachineToInstanceType: the checks of the capacity, and what is put in place of
  -- the computed name, capacity and overhead
  unfoldable pub with_annotations :
      Machine
      → String
      → ResourceList
      → Overhead
      → InstanceType Requirements
      → Result (InstanceType Requirements)
  with_annotations m ty capacity overhead it = do
    cpu ←
        or_error
          ("unable to convert Machine " <> m.name <> " to a NodeClaim, no cpu capacity found")
          (lookup Labels.resource_cpu capacity)
    memory ←
        or_error
          ("unable to convert Machine " <> m.name <> " to a NodeClaim, no memory capacity found")
          (lookup Labels.resource_memory capacity)
    ok (record it { name = ty; capacity = capacity; overhead = overhead })

  -- resolveMachineToInstanceType. NewInstanceType has no overrides of the kubelet here, and without
  -- them it does not panic.
  unfoldable pub resolve_machine_to_instance_type : Machine → Result (InstanceType Requirements)
  resolve_machine_to_instance_type m = do
    ty ← d.instance_type_of m.raw_spec
    capacity ← resources_of d Labels.capacity_group m
    overhead ← overhead_of d m
    cpu ←
        or_error ("unable to convert machine " <> m.name <> " cpu ")
          (atoi (text_at Labels.label_instance_cpu m.labels))
    memory ←
        or_error ("unable to convert machine " <> m.name <> " memory ")
          (atoi (text_at Labels.label_instance_memory_gb m.labels))
    price ←
        or_error ("unable to convert machine " <> m.name <> " price ")
          (d.parse_price (text_at Labels.annotation_unit_price m.annotations))
    it ← or_error "panic" (
        new_instance_type s d.fl d.vm_memory_overhead d.quantities d.percentages (pos 50)
          (machine_item m ty cpu memory price) (d.above_1_29 m) (machine_offering m price ∷ []) []
          none)
    with_annotations m ty capacity overhead it

  unfoldable pub labels_of : Machine → InstanceType Requirements → Dict String
  labels_of m it =
      set_all
        (map (λ (e : String × s.Requirement). (e.0, k.single e.1)) (k.entries it.requirements)
          ++ (Labels.node_pool_label_key, lookup Labels.node_pool_label_key m.labels) ∷ [])
        []

  unfoldable pub annotations_of : Machine → Dict String
  annotations_of m =
      insert Labels.annotation_owned_machine m.name
        (set_if Labels.annotation_managed_by (lookup Labels.annotation_managed_by m.annotations) [])

  abbrev pub deletion_of : ℕ → Machine → Option ℕ
  deletion_of now m = if text_of m.phase == phase_deleting then some now else none

  -- the NodeClaim that machineToNodeClaim builds
  unfoldable pub nodeclaim_of : ℕ → Machine → InstanceType Requirements → NodeClaim
  nodeclaim_of now m it = record {
    name = "";
    kind = "";
    labels = labels_of m it;
    annotations = annotations_of m;
    created = m.created;
    deletion = deletion_of now m;
    provider_id = text_of m.provider_id;
    capacity = non_zero it.capacity;
    allocatable = non_zero (k.allocatable it.capacity it.overhead);
  }

  -- machineToNodeClaim
  unfoldable pub machine_to_nodeclaim : ℕ → Machine → Result NodeClaim
  machine_to_nodeclaim now m = elim (resolve_machine_to_instance_type m) [
    | err e ↦ err (plain "resolving machine to instancetype failed, ")
    | ok it ↦ ok (nodeclaim_of now m it)
  ]
