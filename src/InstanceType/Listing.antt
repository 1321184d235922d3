-- ===== src/InstanceType/Listing.antt =====
-- pkg/providers/instancetype/instancetype.go: List, with the cache of what the cloud answered. Entries under
-- one key have one kind; another kind would be a failed type assertion, which panics.
pub mod Forgotten
pub mod Keys
pub mod Warm
pub mod Kept
pub mod Filled
pub mod Repeat
use karpenter_provider_tke.Prelude.{
  ℕ, ◌+◌, ◌≤◌, ◌≡◌, String, ◌==◌, Bool, true, false, Option, none, some, List, [], ◌∷◌, ◌++◌,
  if◌then◌else◌, leb, is_empty, Result, ok, err, plain, relabel, Dict, lookup,
}
use karpenter_provider_tke.Strconv.{◌<>◌}
use karpenter_provider_tke.Scheduling.{Scheduling, InstanceType}
use karpenter_provider_tke.Zone.{ZoneProvider}
use karpenter_provider_tke.NodeClass.{NodeClass}
use karpenter_provider_tke.InstanceType.Level.{Float64}
use karpenter_provider_tke.InstanceType.Capacity.{InstanceTypeQuotaItem, PodLimitsInstance}
use karpenter_provider_tke.InstanceType.Overhead.{Quantities, Percentages}
use karpenter_provider_tke.InstanceType.New.{Cluster, no_cluster, new_instance_type}
use karpenter_provider_tke.InstanceType.Offerings.{Maps, offerings_at, join_types}
use karpenter_provider_tke.InstanceType.Query.{
  Cloud, get_instance_types, get_eni_limits, normalize_version, storage_in_gb,
}
use karpenter_provider_tke.Machines.Creation.{NodeClassSpec}

pub data Entry : Type 0 where
  types_entry : List InstanceTypeQuotaItem → Entry
  limits_entry : Dict (List PodLimitsInstance) → Entry
  cluster_entry : Cluster → Entry

-- go-cache with its default expiration: an entry is found from when it is set until it has expired, and
-- Flush removes all.
pub record ProviderCache : Type 1 where
  pub C : Type 0
  pub ttl : ℕ
  pub get : C → ℕ → String → Option Entry
  pub put : C → ℕ → String → Entry → C
  pub flush : C → C
  pub get-put :
      (c : C) (now later : ℕ) (k j : String) (v : Entry)
      → now ≤ later
      → get (put c now k v) later j
        ≡ (if k == j then (if leb later (now + ttl) then some v else none) else get c later j)
  pub get-flush : (c : C) (now : ℕ) (k : String) → get (flush c) now k ≡ none

-- What List uses besides: the server's version, its parse with the test that NewInstanceType makes, the
-- hash of the zones of the subnets, path.Clean, and what NewInstanceType takes.
pub record Setting : Type 1 where
  pub server_version : Result String
  pub above_1_29 : String → Option Bool
  pub hash_zones : NodeClass → String
  pub clean : String → String
  pub fl : Float64
  pub vm_memory_overhead : fl.F
  pub quantities : Quantities
  pub percentages : Percentages fl

abbrev pub cluster_key : String
cluster_key = "cluster-info"

abbrev pub on_demand_key : String → String
on_demand_key hash = "instance-types-od-" <> hash

abbrev pub spot_key : String → String
spot_key hash = "instance-types-spot-" <> hash

abbrev pub limits_key : String → String
limits_key hash = "eni-limits-spot-" <> hash

-- m[k] of a map to slices
abbrev pub or_empty {ℓ} : {A : Type ℓ} → Option (List A) → List A
or_empty none = []
or_empty (some xs) = xs

-- amd64 and then arm64
unfoldable pub both_archs :
    Cloud → ℕ → Bool → Bool → NodeClass → String → String → Result (List InstanceTypeQuotaItem)
both_archs cloud now is_spot refresh class amd_text arm_text =
    elim (get_instance_types cloud now "amd64" is_spot refresh class) [
      | err e ↦ err (plain amd_text)
      | ok amd ↦ elim (get_instance_types cloud now "arm64" is_spot refresh class) [
        | err e ↦ err (plain arm_text)
        | ok arm ↦ ok (amd ++ arm)
      ]
    ]

-- the version of the server, as NewInstanceType uses it
unfoldable pub version_of : Setting → Result Bool
version_of setting = elim setting.server_version [
  | err e ↦ err (plain "get server version failed: ")
  | ok v ↦ elim (setting.above_1_29 (normalize_version v)) [
    | none ↦ err (plain "parse server version failed: ")
    | some above ↦ ok above
  ]
]

module _ (cache : ProviderCache) (now : ℕ) where
  open cache use {C, get, put, flush}

  -- a computation with the cache
  abbrev pub Run {ℓ} : Type ℓ → Type ℓ
  Run A = C → Result A × C

  abbrev pub then_run {ℓ κ} : {A : Type ℓ} {B : Type κ} → Result A × C → (A → Run B) → Result B × C
  then_run (err e, c) f = (err e, c)
  then_run (ok a, c) f = f a c

  abbrev pub store_types :
      String → C → Result (List InstanceTypeQuotaItem) → Result (List InstanceTypeQuotaItem) × C
  store_types key c (err e) = (err e, c)
  store_types key c (ok ts) = (ok ts, put c now key (types_entry ts))

  abbrev pub found_types :
      String
      → Result (List InstanceTypeQuotaItem)
      → C
      → Option Entry
      → Result (List InstanceTypeQuotaItem) × C
  found_types key asked c (some (types_entry ts)) = (ok ts, c)
  found_types key asked c (some (limits_entry ls)) = (err (plain "panic"), c)
  found_types key asked c (some (cluster_entry cl)) = (err (plain "panic"), c)
  found_types key asked c none = store_types key c asked

  -- the items under a key, or what the cloud answers
  unfoldable pub cached_types :
      String → Result (List InstanceTypeQuotaItem) → Run (List InstanceTypeQuotaItem)
  cached_types key asked c = found_types key asked c (get c now key)

  abbrev pub store_limits :
      String
      → C
      → Result (Dict (List PodLimitsInstance))
      → Result (Dict (List PodLimitsInstance)) × C
  store_limits key c (err e) = (err (plain "get pod eni limits failed: "), c)
  store_limits key c (ok ls) = (ok ls, put c now key (limits_entry ls))

  abbrev pub found_limits :
      String
      → Result (Dict (List PodLimitsInstance))
      → C
      → Option Entry
      → Result (Dict (List PodLimitsInstance)) × C
  found_limits key asked c (some (limits_entry ls)) = (ok ls, c)
  found_limits key asked c (some (types_entry ts)) = (err (plain "panic"), c)
  found_limits key asked c (some (cluster_entry cl)) = (err (plain "panic"), c)
  found_limits key asked c none = store_limits key c asked

  unfoldable pub cached_limits :
      String → Result (Dict (List PodLimitsInstance)) → Run (Dict (List PodLimitsInstance))
  cached_limits key asked c = found_limits key asked c (get c now key)

  -- what List makes of the clusters that the cloud describes: it stores the first one, and goes on with
  -- the zero value.
  abbrev pub store_cluster : C → Result (List (Option Cluster)) → Result Cluster × C
  store_cluster c (err e) = (err (plain "get cluster info failed: "), c)
  store_cluster c (ok []) = (err (plain "no cluster found for "), c)
  store_cluster c (ok (none ∷ rest)) = (err (plain "no cluster found for "), c)
  store_cluster c (ok (some cl ∷ rest)) = (ok no_cluster, put c now cluster_key (cluster_entry cl))

  abbrev pub found_cluster : Result (List (Option Cluster)) → C → Option Entry → Result Cluster × C
  found_cluster clusters c (some (cluster_entry cl)) = (ok cl, c)
  found_cluster clusters c (some (types_entry ts)) = (err (plain "panic"), c)
  found_cluster clusters c (some (limits_entry ls)) = (err (plain "panic"), c)
  found_cluster clusters c none = store_cluster c clusters

  unfoldable pub cluster_info : Result (List (Option Cluster)) → Run Cluster
  cluster_info clusters c = found_cluster clusters c (get c now cluster_key)

module _ (s : Scheduling) (zones : ZoneProvider) (blocked : String → String → String → Bool)
    (setting : Setting) where
  open s use {Requirements}

  -- lo.MapToSlice with NewInstanceType
  unfoldable pub new_types :
      NodeClassSpec
      → Bool
      → Maps s zones blocked
      → Dict (List PodLimitsInstance)
      → Cluster
      → Dict InstanceTypeQuotaItem
      → Result (List (InstanceType Requirements))
  new_types spec above maps limits cls [] = ok []
  new_types spec above maps limits cls ((k, i) ∷ rest) =
      let others = new_types spec above maps limits cls rest in
      elim (new_instance_type s setting.fl setting.vm_memory_overhead setting.quantities
        setting.percentages (storage_in_gb setting.clean spec.system_disk spec.data_disks) i above
        (offerings_at s zones blocked k maps.offerings_map) (or_empty (lookup i.zone limits))
        (some cls)) [
          | none ↦ err (plain "panic")
          | some it ↦ elim others [ err e ↦ err e | ok its ↦ ok (it ∷ its) ]
        ]

  unfoldable pub types_of :
      NodeClassSpec
      → Bool
      → List InstanceTypeQuotaItem
      → List InstanceTypeQuotaItem
      → Dict (List PodLimitsInstance)
      → Cluster
      → Result (List (InstanceType Requirements))
  types_of spec above od_types spot_types limits cls =
      let maps = join_types s zones blocked od_types spot_types in
      new_types spec above maps limits cls maps.instance_type_map

-- `clusters` is what DescribeClusters answers: clusters, with `none` for a nil pointer.
module _ (s : Scheduling) (zones : ZoneProvider) (blocked : String → String → String → Bool)
    (cache : ProviderCache) (setting : Setting) (cloud : Cloud) (now : ℕ)
    (clusters : Result (List (Option Cluster))) where
  open s use {Requirements}
  open cache use {C, flush}

  abbrev pub Listed : Type 0
  Listed = Result (List (InstanceType Requirements)) × C

  -- List, from the limits on
  unfoldable pub list_limited :
      NodeClass
      → NodeClassSpec
      → Bool
      → List InstanceTypeQuotaItem
      → List InstanceTypeQuotaItem
      → Dict (List PodLimitsInstance)
      → C
      → Listed
  list_limited class spec above od_types spot_types limits c =
      then_run cache now (cluster_info cache now clusters c)
        λ cls c. (types_of s zones blocked setting spec above od_types spot_types limits cls, c)

  -- List, from the spot types on
  unfoldable pub list_typed :
      NodeClass
      → NodeClassSpec
      → Bool
      → List InstanceTypeQuotaItem
      → List InstanceTypeQuotaItem
      → C
      → Listed
  list_typed class spec above od_types spot_types c =
      then_run cache now
        (cached_limits cache now (limits_key (setting.hash_zones class))
          (get_eni_limits cloud now class) c)
        (list_limited class spec above od_types spot_types)

  abbrev pub asked_types : Bool → NodeClass → Bool → Result (List InstanceTypeQuotaItem)
  asked_types refresh class is_spot =
      if is_spot
      then both_archs cloud now true refresh class "get spot amd64 instance types failed: "
          "get spot arm64 instance types failed: "
      else both_archs cloud now false refresh class "get on-demand amd64 instance types failed: "
          "get on-demand arm64 instance types failed: "

  -- List, from the on-demand types on
  unfoldable pub list_on_demand :
      Bool → NodeClass → NodeClassSpec → Bool → List InstanceTypeQuotaItem → C → Listed
  list_on_demand refresh class spec above od_types c =
      then_run cache now
        (cached_types cache now (spot_key (setting.hash_zones class))
          (asked_types refresh class true) c)
        (list_typed class spec above od_types)

  -- List, from the four things that are cached on
  unfoldable pub list_cached : Bool → NodeClass → NodeClassSpec → Bool → C → Listed
  list_cached refresh class spec above c =
      then_run cache now
        (cached_types cache now (on_demand_key (setting.hash_zones class))
          (asked_types refresh class false) c)
        (list_on_demand refresh class spec above)

  -- List
  unfoldable pub list : Bool → NodeClass → NodeClassSpec → C → Listed
  list refresh class spec c =
      let start = if refresh then flush c else c in
      elim (version_of setting) [
        | err e ↦ (err e, start)
        | ok above ↦
            if is_empty class.subnets
            then (err (plain "no subnets found"), start)
            else list_cached refresh class spec above start
      ]
