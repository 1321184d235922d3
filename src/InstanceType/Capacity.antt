-- ===== src/InstanceType/Capacity.antt =====
-- pkg/providers/instancetype/types.go: the capacity of an instance type. Quantities that the code
-- prints and parses again are kept as their values.
pub mod Bounds
use karpenter_provider_tke.Prelude.{
  ℕ, ◌*◌, ◌^◌, String, ◌==◌, ◌&&◌, Option, none, some, List, [], ◌∷◌, is_empty, if◌then◌else◌, ℤ,
  pos, ◌-ℤ◌, ◌*ℤ◌, ltb_ℤ, leb_ℤ, wrap64, insert,
}
use karpenter_provider_tke.Labels
use karpenter_provider_tke.Scheduling.{ResourceList, whole}
use karpenter_provider_tke.InstanceType.Kdump
use karpenter_provider_tke.InstanceType.Kdump.{kdump_levels}
use karpenter_provider_tke.InstanceType.Level.{Float64}

-- cxm.InstanceTypeQuotaItem, the fields that the code reads
pub record InstanceTypeQuotaItem : Type 0 where
  pub zone : String
  pub instance_family : String
  pub instance_type : String
  pub cpu : ℤ
  pub memory : ℤ
  pub gpu : ℤ
  pub inventory : ℤ
  pub status : String
  pub unit_price : ℕ
  pub arch : String

-- tke2018.PodLimitsInstance, the fields that the code reads
pub record PodLimitsInstance : Type 0 where
  pub instance_type : String
  pub tke_route_eni_static_ip : Option ℤ
  pub tke_direct_eni : Option ℤ
  pub tke_sub_eni : Option ℤ

-- lo.FromPtr
abbrev pub from_ptr : Option ℤ → ℤ
from_ptr none = pos 0
from_ptr (some z) = z

-- pods
unfoldable pub pods : InstanceTypeQuotaItem → Option ℤ → Option ℤ → Option ℤ → ℤ
pods item eni max_pods pods_per_core =
    let count =
      if ltb_ℤ (pos 0) (from_ptr max_pods)
      then from_ptr max_pods
      else if ltb_ℤ (pos 0) (from_ptr eni)
      then (if ltb_ℤ (from_ptr eni) (pos 61) then pos 61 else from_ptr eni)
      else pos 110 in
    if ltb_ℤ (pos 0) (from_ptr pods_per_core)
    then (let bound = wrap64 (from_ptr pods_per_core *ℤ item.cpu) in
        if ltb_ℤ count bound then count else bound)
    else count

-- eip
unfoldable pub eip : InstanceTypeQuotaItem → ℤ
eip item =
    let between = λ (a b : ℕ). leb_ℤ (pos a) item.cpu && leb_ℤ item.cpu (pos b) in
    if between 1 5
    then pos 1
    else if between 6 11
    then pos 2
    else if between 12 17
    then pos 3
    else if between 18 23
    then pos 4
    else if between 24 29
    then pos 5
    else if between 30 35
    then pos 6
    else if between 36 41
    then pos 7
    else if between 42 47
    then pos 8
    else if leb_ℤ (pos 48) item.cpu
    then pos 9
    else pos 1

-- eni
unfoldable pub eni : InstanceTypeQuotaItem → List PodLimitsInstance → Option ℤ × Option ℤ × Option ℤ
eni item [] = (none, none, none)
eni item (limit ∷ limits) =
    if item.instance_type == limit.instance_type
    then (limit.tke_route_eni_static_ip, limit.tke_direct_eni, limit.tke_sub_eni)
    else eni item limits

-- memory: what is left of `m` bytes for the virtual machine. `overhead` is VMMemoryOverheadPercent.
unfoldable pub memory : (fl : Float64) → fl.F → ℤ → ℤ
memory fl overhead m = fl.ceil (
    fl.mul (fl.of_int (wrap64 (m -ℤ Kdump.eval kdump_levels m)))
      (fl.sub (fl.of_int (pos 1)) overhead))

abbrev with_optional : String → Option ℤ → ResourceList → ResourceList
with_optional name none r = r
with_optional name (some z) r = insert name (whole z) r

-- computeCapacity
unfoldable pub compute_capacity :
    (fl : Float64)
    → fl.F
    → ℤ
    → InstanceTypeQuotaItem
    → Option ℤ
    → Option ℤ
    → List PodLimitsInstance
    → ResourceList
compute_capacity fl overhead storage_in_gb item max_pods pods_per_core eni_limits =
    let (eniip, directeni, subeni) = eni item eni_limits in
    let base = insert Labels.resource_cpu (whole item.cpu) (
      insert Labels.resource_memory
        (whole (memory fl overhead (wrap64 (item.memory *ℤ pos (1024 * 1024 * 1024)))))
        (insert Labels.resource_ephemeral_storage (whole (storage_in_gb *ℤ pos (10 ^ 9)))
          (insert Labels.resource_pods (whole (pods item eniip max_pods pods_per_core)) []))) in
    let with_eip =
      if is_empty eni_limits then base else insert Labels.tke_label_eip (whole (eip item)) base in
    let with_eniip = with_optional Labels.tke_label_eniip eniip with_eip in
    let with_direct =
      with_optional Labels.tke_label_eni directeni
        (with_optional Labels.tke_label_direct_eni directeni with_eniip) in
    let with_sub = with_optional Labels.tke_label_sub_eni subeni with_direct in
    if ltb_ℤ (pos 0) item.gpu
    then insert Labels.resource_nvidia_gpu (whole item.gpu) with_sub
    else with_sub
