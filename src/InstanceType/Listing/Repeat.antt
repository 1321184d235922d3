-- ===== src/InstanceType/Listing/Repeat.antt =====
-- A listing that follows a refreshing one is served from the cache.
use karpenter_provider_tke.Prelude.{
  ℕ, ◌+◌, ◌≤◌, ◌≡◌, refl, sym, ap, ◌∙◌, String, Bool, true, false, Option, some, List,
  if◌then◌else◌, is_empty, plain, Result, ok, err, Dict, Result-cases, Bool-cases, inl, inr,
}
use karpenter_provider_tke.Scheduling.{Scheduling, InstanceType}
use karpenter_provider_tke.Zone.{ZoneProvider}
use karpenter_provider_tke.NodeClass.{NodeClass}
use karpenter_provider_tke.InstanceType.Capacity.{InstanceTypeQuotaItem, PodLimitsInstance}
use karpenter_provider_tke.InstanceType.New.{Cluster}
use karpenter_provider_tke.InstanceType.Query.{Cloud, get_eni_limits}
use karpenter_provider_tke.InstanceType.Listing.{
  types_entry, limits_entry, cluster_entry, ProviderCache, Setting, cluster_key, on_demand_key,
  spot_key, limits_key, then_run, cached_types, cached_limits, cluster_info, list_limited,
  list_typed, asked_types, list_on_demand, list_cached, list, version_of, types_of,
}
use karpenter_provider_tke.Machines.Creation.{NodeClassSpec}
use karpenter_provider_tke.InstanceType.Listing.Filled.{list-fills}
use karpenter_provider_tke.InstanceType.Listing.Warm.{IsWarm}

module _ (cache : ProviderCache) (now : ℕ) where
  open cache use {C, get}

  types_hit :
      (key : String) (asked : Result (List InstanceTypeQuotaItem)) (c : C)
      (ts : List InstanceTypeQuotaItem)
      → get c now key ≡ some (types_entry ts)
      → cached_types cache now key asked c ≡ (ok ts, c)
  unfolding cached_types
  types_hit key asked c ts e = rw (cached_types, e) refl

  limits_hit :
      (key : String) (asked : Result (Dict (List PodLimitsInstance))) (c : C)
      (ls : Dict (List PodLimitsInstance))
      → get c now key ≡ some (limits_entry ls)
      → cached_limits cache now key asked c ≡ (ok ls, c)
  unfolding cached_limits
  limits_hit key asked c ls e = rw (cached_limits, e) refl

  cluster_hit :
      (clusters : Result (List (Option Cluster))) (c : C) (cl : Cluster)
      → get c now cluster_key ≡ some (cluster_entry cl)
      → cluster_info cache now clusters c ≡ (ok cl, c)
  unfolding cluster_info
  cluster_hit clusters c cl e = rw (cluster_info, e) refl

module _ (s : Scheduling) (zones : ZoneProvider) (blocked : String → String → String → Bool)
    (cache : ProviderCache) (setting : Setting) (cloud : Cloud) (now : ℕ)
    (clusters : Result (List (Option Cluster))) where
  open s use {Requirements}
  open cache use {C, get, put, flush, get-flush}

  -- what a listing answers from four entries
  abbrev pub served :
      NodeClass
      → NodeClassSpec
      → List InstanceTypeQuotaItem
      → List InstanceTypeQuotaItem
      → Dict (List PodLimitsInstance)
      → Cluster
      → Result (List (InstanceType Requirements))
  served class spec od spot limits cl = elim (version_of setting) [
    | err e ↦ err e
    | ok above ↦
        if is_empty class.subnets
        then err (plain "no subnets found")
        else types_of s zones blocked setting spec above od spot limits cl
  ]

  list_cached-warm :
      (class : NodeClass) (spec : NodeClassSpec) (above : Bool)
      (od spot : List InstanceTypeQuotaItem) (limits : Dict (List PodLimitsInstance)) (cl : Cluster)
      (c : C)
      → IsWarm cache now (setting.hash_zones class) od spot limits cl c
      → list_cached s zones blocked cache setting cloud now clusters false class spec above c
        ≡ (types_of s zones blocked setting spec above od spot limits cl, c)
  unfolding list_cached list_on_demand list_typed list_limited
  list_cached-warm class spec above od spot limits cl c (a, b, l, k) =
      let hash : String = setting.hash_zones class in
      let types : Bool → Result (List InstanceTypeQuotaItem) = λ is_spot.
        asked_types s zones blocked cache setting cloud now clusters false class is_spot in
      ap
        (λ r.
          then_run cache now r (
            list_on_demand s zones blocked cache setting cloud now clusters false class spec above))
        (types_hit cache now (on_demand_key hash) (types false) c od a)
      ∙ ap
          (λ r.
            then_run cache now r
              (list_typed s zones blocked cache setting cloud now clusters class spec above od))
          (types_hit cache now (spot_key hash) (types true) c spot b)
      ∙ ap
          (λ r. then_run cache now r (
            list_limited s zones blocked cache setting cloud now clusters class spec above od spot))
          (limits_hit cache now (limits_key hash) (get_eni_limits cloud now class) c limits l)
      ∙ ap
          (λ r.
            then_run cache now r
              λ cls c. (types_of s zones blocked setting spec above od spot limits cls, c))
          (cluster_hit cache now clusters c cl k)

  pub list-warm :
      (class : NodeClass) (spec : NodeClassSpec) (od spot : List InstanceTypeQuotaItem)
      (limits : Dict (List PodLimitsInstance)) (cl : Cluster) (c : C)
      → IsWarm cache now (setting.hash_zones class) od spot limits cl c
      → list s zones blocked cache setting cloud now clusters false class spec c
        ≡ (served class spec od spot limits cl, c)
  unfolding list
  list-warm class spec od spot limits cl c warm = elim (Result-cases (version_of setting)) [
    | inr (e, v) ↦ rw (list, served, v) refl
    | inl (above, v) ↦ elim (Bool-cases (is_empty class.subnets)) [
      | inl bare ↦ rw (list, served, v, bare) refl
      | inr some_subnets ↦
          rw (list, served, v, some_subnets)
            (list_cached-warm class spec above od spot limits cl c warm)
    ]
  ]

module _ (s : Scheduling) (zones : ZoneProvider) (blocked : String → String → String → Bool)
    (cache : ProviderCache) (setting : Setting) where
  open s use {Requirements}
  open cache use {C, ttl}

  -- After a refreshing listing of instance types that succeeds, a listing for the same node class
  -- that does not refresh and that runs before the entries expire leaves the cache as it is, and
  -- as long as the server's version and the blocked offerings are the same, what it answers
  -- depends neither on the time nor on what the cloud answers by then.
  pub list-repeats :
      (cloud one other : Cloud) (now soon later : ℕ)
      (clusters some_clusters other_clusters : Result (List (Option Cluster))) (class : NodeClass)
      (spec next : NodeClassSpec) (c d : C) (its : List (InstanceType Requirements))
      → list s zones blocked cache setting cloud now clusters true class spec c ≡ (ok its, d)
      → now ≤ soon
      → soon ≤ now + ttl
      → now ≤ later
      → later ≤ now + ttl
      → (list s zones blocked cache setting one soon some_clusters false class next d
          ≡ list s zones blocked cache setting other later other_clusters false class next d)
        × ((list s zones blocked cache setting one soon some_clusters false class next d).1 ≡ d)
  list-repeats cloud one other now soon later clusters some_clusters other_clusters class spec next
        c d its h a b x y =
      let filled =
        list-fills s zones blocked cache setting cloud now clusters class spec c d its h in
      let first =
        list-warm s zones blocked cache setting one soon some_clusters class next filled.0 filled.1
          filled.2 filled.3 d (filled.4 soon a b) in
      let second =
        list-warm s zones blocked cache setting other later other_clusters class next filled.0
          filled.1 filled.2 filled.3 d (filled.4 later x y) in
      (first ∙ sym second, ap (λ p. p.1) first)
