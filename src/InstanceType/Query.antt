-- ===== src/InstanceType/Query.antt =====
-- pkg/providers/instancetype/instancetype.go: what List asks the cloud (getInstanceTypes, getENILimits) and
-- computes of the node class. What the cloud answers is a parameter, by the time and the question.
pub mod Zones
use karpenter_provider_tke.Prelude.{
  ℕ, String, ◌==◌, Bool, true, ◌||◌, Option, none, some, List, [], ◌∷◌, ◌++◌, map, if◌then◌else◌, ℤ,
  pos, ◌-ℤ◌, ltb_ℤ, wrap32, Result, ok, err, plain, Dict, lookup, insert, remove, text_at,
}
use karpenter_provider_tke.Labels
use karpenter_provider_tke.Strconv.{contains, cut_prefix}
use karpenter_provider_tke.Kube.{text_of}
use karpenter_provider_tke.NodeClass.{NodeClass, Subnet}
use karpenter_provider_tke.InstanceType.Capacity.{InstanceTypeQuotaItem, PodLimitsInstance}
use karpenter_provider_tke.Machines.Creation.{SystemDisk, DataDisk}

-- a NodeClaim: the name in its node class reference, which the API requires, and its labels
pub record Claim : Type 0 where
  pub node_class_ref : String
  pub labels : Dict String

-- The filters of DescribeZoneInstanceConfigInfos.
pub record Query : Type 0 where
  pub zones : List String
  pub arch : String
  pub charge_type : String
  pub refresh_cache : Bool

-- Its answers: an error of the request or in the response, by its text, a body that cannot be read, or
-- the items.
pub data Answer : Type 0 where
  send_error response_error : String → Answer
  unreadable : Answer
  items : List InstanceTypeQuotaItem → Answer

-- the answers of DescribeVpcCniPodLimits
pub data LimitAnswer : Type 0 where
  limit_error : String → LimitAnswer
  limits : List PodLimitsInstance → LimitAnswer

pub record Cloud : Type 0 where
  pub list_claims : ℕ → Result (List Claim)
  pub describe_types : ℕ → Query → Answer
  pub describe_limits : ℕ → String → LimitAnswer

-- the loop of SliceToMap: the zone of the disks for a NodeClaim of the class, otherwise the empty text
unfoldable pub existed_zones : String → List Claim → Dict Bool → Dict Bool
existed_zones class [] m = m
existed_zones class (c ∷ cs) m = existed_zones class cs (
    insert (if c.node_class_ref == class then text_at Labels.label_cbs_toplogy c.labels else "")
      true m)

unfoldable pub remove_zones : List Subnet → Dict Bool → Dict Bool
remove_zones [] m = m
remove_zones (n ∷ ns) m = remove_zones ns (remove n.zone m)

abbrev pub keys_of : {A : Type 0} → Dict A → List String
keys_of [] = []
keys_of ((k, v) ∷ m) = k ∷ keys_of m

-- the zones of the subnets, and then those of NodeClaims in other zones, in some order
unfoldable pub zones_of : NodeClass → List Claim → List String
zones_of class claims =
    map (λ (n : Subnet). n.zone) class.subnets
    ++ keys_of (remove_zones class.subnets (remove "" (existed_zones class.name claims [])))

-- `strings.Contains(err.Error(), "ZoneNotSupported")`
abbrev pub is_unsupported : String → Bool
is_unsupported text = contains text "ZoneNotSupported"

unfoldable pub items_of : String → Answer → Result (List InstanceTypeQuotaItem)
items_of arch (send_error text) =
    if is_unsupported text
    then ok []
    else err (plain "failed to describe instance config infos, requestID: ")
items_of arch (response_error text) =
    if is_unsupported text then ok [] else err (plain "failed to describe instance config infos: ")
items_of arch unreadable = err (plain "unmarshal instanceInfos failed: ")
items_of arch (items is) = ok (map (λ (i : InstanceTypeQuotaItem). record i { arch = arch }) is)

module _ (cloud : Cloud) (now : ℕ) where
  abbrev query_of : NodeClass → List Claim → String → Bool → Bool → Query
  query_of class claims arch is_spot refresh = record {
    zones = zones_of class claims;
    arch = arch;
    charge_type = if is_spot then "SPOTPAID" else "POSTPAID_BY_HOUR";
    refresh_cache = refresh;
  }

  -- getInstanceTypes
  unfoldable pub get_instance_types :
      String → Bool → Bool → NodeClass → Result (List InstanceTypeQuotaItem)
  get_instance_types arch is_spot refresh class = elim (cloud.list_claims now) [
    | err e ↦ err (plain "get nodeclaim failed: ")
    | ok claims ↦
        items_of arch (cloud.describe_types now (query_of class claims arch is_spot refresh))
  ]

  -- the loop of getENILimits, which asks once for each zone
  unfoldable pub add_limits :
      List Subnet → Dict (List PodLimitsInstance) → Result (Dict (List PodLimitsInstance))
  add_limits [] m = ok m
  add_limits (n ∷ ns) m = elim (lookup n.zone m) [
    | some known ↦ add_limits ns m
    | none ↦ elim (cloud.describe_limits now n.zone) [
      | limit_error text ↦
          let next = add_limits ns m in
          if is_unsupported text then next else err (plain "failed to get vpc cni pod limits: ")
      | limits ls ↦ add_limits ns (insert n.zone ls m)
    ]
  ]

  -- getENILimits
  unfoldable pub get_eni_limits : NodeClass → Result (Dict (List PodLimitsInstance))
  get_eni_limits class = add_limits class.subnets []

-- normalizeVersion
unfoldable pub normalize_version : String → String
normalize_version v = elim (cut_prefix "v" v) [ none ↦ v | some rest ↦ rest ]

abbrev pub is_root : String → Bool
is_root path =
    path == "/var/lib/container"
    || path == "/var/lib/kubelet"
    || path == "/var/lib"
    || path == "/var"

-- the loop over the data disks; `clean` is path.Clean
unfoldable pub disk_storage : (String → String) → List DataDisk → ℤ → ℤ
disk_storage clean [] storage = storage
disk_storage clean (d ∷ ds) storage =
    disk_storage clean ds
      (if is_root (clean (text_of d.mount_target)) then wrap32 (d.size -ℤ pos 5) else storage)

abbrev system_storage : Option SystemDisk → ℤ
system_storage none = pos 35
system_storage (some d) = wrap32 (d.size -ℤ pos 15)

-- storageInGB
unfoldable pub storage_in_gb : (String → String) → Option SystemDisk → List DataDisk → ℤ
storage_in_gb clean system disks =
    let storage = disk_storage clean disks (system_storage system) in
    if ltb_ℤ storage (pos 0) then pos 0 else storage
