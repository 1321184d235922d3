-- ===== src/InstanceType/New.antt =====
-- pkg/providers/instancetype/types.go: an instance type from what the cloud sells.
use karpenter_provider_tke.Prelude.{
  ℕ, String, ◌==◌, Bool, not, ◌&&◌, Option, none, some, List, [], ◌∷◌, map, if◌then◌else◌, ℤ, pos,
  ◌-ℤ◌, ltb_ℤ, wrap32, lookup,
}
use karpenter_provider_tke.Strconv.{is_blank, itoa}
use karpenter_provider_tke.Labels
use karpenter_provider_tke.Scheduling.{
  Scheduling, operator_in, does_not_exist, Offering, InstanceType, ResourceList, Quantity,
}
use karpenter_provider_tke.InstanceType.Level.{Float64}
use karpenter_provider_tke.InstanceType.Capacity.{
  InstanceTypeQuotaItem, PodLimitsInstance, compute_capacity,
}
use karpenter_provider_tke.InstanceType.Overhead.{
  Quantities, Percentages, ◌>>=◌, kube_reserved_resources, system_reserved_resources,
  eviction_threshold,
}

-- ClusterProperty, the fields that the code reads; json.Unmarshal leaves the zero values on an error.
pub record ClusterProperty : Type 0 where
  pub network_type : String
  pub vpc_cni_type : String
  pub has_meta_feature_param : Bool

-- tke2018.Cluster: Property, and ClusterNetworkSettings.MaxNodePodNum. A missing number is 0 for the
-- code, as lo.FromPtr has it.
pub record Cluster : Type 0 where
  pub property : Option ClusterProperty
  pub max_node_pod_num : Option ℕ

-- the zero value of tke2018.Cluster
abbrev pub no_cluster : Cluster
no_cluster = record { property = none; max_node_pod_num = none }

abbrev is_vpc_cni : ClusterProperty → Bool
is_vpc_cni p = p.network_type == "VPC-CNI"

-- the pods that NewInstanceType takes from the cluster
pods_of : ClusterProperty → Option ℕ → Option ℤ → Option ℤ
pods_of p none max_pods = max_pods
pods_of p (some n) max_pods =
    if not (is_vpc_cni p) && ltb_ℤ (pos 3) (pos n) then some (wrap32 (pos n -ℤ pos 3)) else max_pods

-- the first block of NewInstanceType: the cluster may set the pods, and drop the ENI limits
unfoldable pub cluster_limits :
    Option Cluster → Option ℤ → List PodLimitsInstance → Option ℤ × List PodLimitsInstance
unfolding pods_of
cluster_limits none max_pods eni_limits = (max_pods, eni_limits)
cluster_limits (some c) max_pods eni_limits = elim c.property [
  | none ↦ (max_pods, eni_limits)
  | some p ↦ (
    pods_of p c.max_node_pod_num max_pods,
    if is_blank p.vpc_cni_type && not (is_vpc_cni p) && not p.has_meta_feature_param
        then []
        else eni_limits,
  )
]

module _ (s : Scheduling) where
  open s use {Requirement, Requirements, new_requirement, new_requirements, get, any, available}

  abbrev label_of : String → Offering Requirements → String
  label_of key o = any (get o.requirements key)

  -- computeRequirements
  unfoldable pub compute_requirements :
      List (Offering Requirements) → InstanceTypeQuotaItem → Requirements
  compute_requirements offerings item =
      let arch = if is_blank item.arch then "amd64" else item.arch in
      let one = λ (key word : String). new_requirement key operator_in (word ∷ []) in
      let each = λ (key : String).
        new_requirement key operator_in (map (label_of key) (available offerings)) in
      new_requirements (
        one Labels.label_instance_type_stable item.instance_type
        ∷ one Labels.label_arch_stable arch
        ∷ one Labels.label_os_stable "linux"
        ∷ each Labels.label_topology_zone
        ∷ each Labels.label_cbs_toplogy
        ∷ new_requirement Labels.label_windows_build does_not_exist []
        ∷ each Labels.capacity_type_label_key
        ∷ one Labels.label_instance_cpu (itoa item.cpu)
        ∷ one Labels.label_instance_memory_gb (itoa item.memory)
        ∷ one Labels.label_instance_family item.instance_family
        ∷ [])

  abbrev amount : String → ResourceList → Quantity
  amount name r = elim (lookup name r) [ none ↦ pos 0 | some q ↦ q ]

  -- NewInstanceType with no overrides of the kubelet, as every caller has it. `overhead` is
  -- VMMemoryOverheadPercent, `above_1_29` the test of the version; `none` is a panic.
  unfoldable pub new_instance_type :
      (fl : Float64)
      → fl.F
      → Quantities
      → Percentages fl
      → ℤ
      → InstanceTypeQuotaItem
      → Bool
      → List (Offering Requirements)
      → List PodLimitsInstance
      → Option Cluster
      → Option (InstanceType Requirements)
  new_instance_type fl overhead qs ps storage_in_gb item above_1_29 offerings eni_limits clsinfo =
      let (max_pods, limits) = cluster_limits clsinfo none eni_limits in
      let capacity = compute_capacity fl overhead storage_in_gb item max_pods none limits in
      do
        kube ←
            kube_reserved_resources fl qs above_1_29 (amount Labels.resource_cpu capacity)
              (amount Labels.resource_pods capacity) item.memory []
        system ← system_reserved_resources qs []
        eviction ←
            eviction_threshold fl qs ps (amount Labels.resource_memory capacity)
              (amount Labels.resource_ephemeral_storage capacity) none
        some (record {
          name = item.instance_type;
          requirements = compute_requirements offerings item;
          offerings = offerings;
          capacity = capacity;
          overhead = record {
            kube_reserved = kube;
            system_reserved = system;
            eviction_threshold = eviction;
          };
        })
