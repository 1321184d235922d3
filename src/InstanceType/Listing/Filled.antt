-- ===== src/InstanceType/Listing/Filled.antt =====
-- What a refreshing listing leaves in the cache.
use karpenter_provider_tke.Prelude.{
  ℕ, ◌+◌, ◌≤◌, ◌≡◌, sym, ap, subst, ◌∙◌, arith, String, Bool, true, false, Option, none, List,
  is_empty, Result, ok, Dict, Result-cases, Bool-cases, inl, inr,
}
use karpenter_provider_tke.Scheduling.{Scheduling, InstanceType}
use karpenter_provider_tke.Zone.{ZoneProvider}
use karpenter_provider_tke.NodeClass.{NodeClass}
use karpenter_provider_tke.InstanceType.Capacity.{InstanceTypeQuotaItem, PodLimitsInstance}
use karpenter_provider_tke.InstanceType.New.{Cluster}
use karpenter_provider_tke.InstanceType.Query.{Cloud, get_eni_limits}
use karpenter_provider_tke.InstanceType.Listing.{
  Entry, types_entry, limits_entry, cluster_entry, ProviderCache, Setting, cluster_key,
  on_demand_key, spot_key, limits_key, cached_types, cached_limits, cluster_info, list_limited,
  list_typed, asked_types, list_on_demand, list_cached, list, version_of, types_of,
}
use karpenter_provider_tke.InstanceType.Listing.Keys.{on_demand-spot, on_demand-limits, spot-limits}
use karpenter_provider_tke.InstanceType.Listing.Forgotten.{
  on_demand_key-apart, spot_key-apart, limits_key-apart,
}
use karpenter_provider_tke.Machines.Creation.{NodeClassSpec}
use karpenter_provider_tke.InstanceType.Listing.Warm.{
  get-put_other, then_run-ok, cached_types-stores, cached_limits-stores, cluster_info-stores,
  IsWarm, puts-IsWarm,
}

module _ (s : Scheduling) (zones : ZoneProvider) (blocked : String → String → String → Bool)
    (cache : ProviderCache) (setting : Setting) (cloud : Cloud) (now : ℕ)
    (clusters : Result (List (Option Cluster))) where
  open s use {Requirements}
  open cache use {C, get, put, flush, get-flush}

  list_limited-fills :
      (class : NodeClass) (spec : NodeClassSpec) (above : Bool)
      (od spot : List InstanceTypeQuotaItem) (limits : Dict (List PodLimitsInstance)) (c d : C)
      (its : List (InstanceType Requirements))
      → get c now cluster_key ≡ none
      → list_limited s zones blocked cache setting cloud now clusters class spec above od spot
          limits c
        ≡ (ok its, d)
      → (cl : Cluster) × (put c now cluster_key (cluster_entry cl) ≡ d)
  unfolding list_limited
  list_limited-fills class spec above od spot limits c d its unknown h =
      let step =
        then_run-ok cache now (cluster_info cache now clusters c)
          (λ cls c. (types_of s zones blocked setting spec above od spot limits cls, c)) its d h in
      let stored = cluster_info-stores cache now clusters c step.0 unknown step.1 in
      (stored.0, sym stored.1 ∙ ap (λ p. p.1) step.2)

  list_typed-fills :
      (class : NodeClass) (spec : NodeClassSpec) (above : Bool)
      (od spot : List InstanceTypeQuotaItem) (c d : C) (its : List (InstanceType Requirements))
      → get c now cluster_key ≡ none
      → get c now (limits_key (setting.hash_zones class)) ≡ none
      → list_typed s zones blocked cache setting cloud now clusters class spec above od spot c
        ≡ (ok its, d)
      → (ls : Dict (List PodLimitsInstance)) × (cl : Cluster) × (put
            (put c now (limits_key (setting.hash_zones class)) (limits_entry ls))
            now
            cluster_key
            (cluster_entry cl)
          ≡ d)
  unfolding list_typed
  list_typed-fills class spec above od spot c d its unknown missing h =
      let hash : String = setting.hash_zones class in
      let asked = get_eni_limits cloud now class in
      let next =
        list_limited s zones blocked cache setting cloud now clusters class spec above od spot in
      let step =
        then_run-ok cache now (cached_limits cache now (limits_key hash) asked c) next its d h in
      let stored = cached_limits-stores cache now (limits_key hash) asked c step.0 missing step.1 in
      let e : C = put c now (limits_key hash) (limits_entry step.0) in
      let rest =
        list_limited-fills class spec above od spot step.0 e d its
          (get-put_other cache c now now (limits_key hash) cluster_key (limits_entry step.0)
              (omega arith) (limits_key-apart hash)
            ∙ unknown)
          (subst (λ (x : C). next step.0 x ≡ (ok its, d)) stored step.2) in
      (step.0, rest.0, rest.1)

  list_on_demand-fills :
      (refresh : Bool) (class : NodeClass) (spec : NodeClassSpec) (above : Bool)
      (od : List InstanceTypeQuotaItem) (c d : C) (its : List (InstanceType Requirements))
      → get c now cluster_key ≡ none
      → get c now (limits_key (setting.hash_zones class)) ≡ none
      → get c now (spot_key (setting.hash_zones class)) ≡ none
      → list_on_demand s zones blocked cache setting cloud now clusters refresh class spec above od
          c
        ≡ (ok its, d)
      → (spot : List InstanceTypeQuotaItem) × (ls : Dict (List PodLimitsInstance)) × (cl : Cluster)
        × (put
              (put
                (put c now (spot_key (setting.hash_zones class)) (types_entry spot))
                now
                (limits_key (setting.hash_zones class))
                (limits_entry ls))
              now
              cluster_key
              (cluster_entry cl)
            ≡ d)
  unfolding list_on_demand
  list_on_demand-fills refresh class spec above od c d its unknown unlimited missing h =
      let hash : String = setting.hash_zones class in
      let asked = asked_types s zones blocked cache setting cloud now clusters refresh class true in
      let next = list_typed s zones blocked cache setting cloud now clusters class spec above od in
      let step =
        then_run-ok cache now (cached_types cache now (spot_key hash) asked c) next its d h in
      let stored = cached_types-stores cache now (spot_key hash) asked c step.0 missing step.1 in
      let v : Entry = types_entry step.0 in
      let e : C = put c now (spot_key hash) v in
      let rest =
        list_typed-fills class spec above od step.0 e d its
          (get-put_other cache c now now (spot_key hash) cluster_key v (omega arith)
              (spot_key-apart hash)
            ∙ unknown)
          (get-put_other cache c now now (spot_key hash) (limits_key hash) v (omega arith)
              (spot-limits hash)
            ∙ unlimited)
          (subst (λ (x : C). next step.0 x ≡ (ok its, d)) stored step.2) in
      (step.0, rest.0, rest.1, rest.2)

  list_cached-fills :
      (refresh : Bool) (class : NodeClass) (spec : NodeClassSpec) (above : Bool) (c d : C)
      (its : List (InstanceType Requirements))
      → ((k : String) → get c now k ≡ none)
      → list_cached s zones blocked cache setting cloud now clusters refresh class spec above c
        ≡ (ok its, d)
      → (od : List InstanceTypeQuotaItem) × (spot : List InstanceTypeQuotaItem) × (ls : Dict
          (List PodLimitsInstance))
        × (cl : Cluster) × (put
              (put
                (put
                  (put c now (on_demand_key (setting.hash_zones class)) (types_entry od))
                  now
                  (spot_key (setting.hash_zones class))
                  (types_entry spot))
                now
                (limits_key (setting.hash_zones class))
                (limits_entry ls))
              now
              cluster_key
              (cluster_entry cl)
            ≡ d)
  unfolding list_cached
  list_cached-fills refresh class spec above c d its empty h =
      let hash : String = setting.hash_zones class in
      let key : String = on_demand_key hash in
      let asked =
        asked_types s zones blocked cache setting cloud now clusters refresh class false in
      let next =
        list_on_demand s zones blocked cache setting cloud now clusters refresh class spec above in
      let step = then_run-ok cache now (cached_types cache now key asked c) next its d h in
      let stored = cached_types-stores cache now key asked c step.0 (empty key) step.1 in
      let v : Entry = types_entry step.0 in
      let e : C = put c now key v in
      let rest =
        list_on_demand-fills refresh class spec above step.0 e d its
          (get-put_other cache c now now key cluster_key v (omega arith) (on_demand_key-apart hash)
            ∙ empty cluster_key)
          (get-put_other cache c now now key (limits_key hash) v (omega arith)
              (on_demand-limits hash)
            ∙ empty (limits_key hash))
          (get-put_other cache c now now key (spot_key hash) v (omega arith) (on_demand-spot hash)
            ∙ empty (spot_key hash))
          (subst (λ (x : C). next step.0 x ≡ (ok its, d)) stored step.2) in
      (step.0, rest.0, rest.1, rest.2, rest.3)

  -- A refreshing listing that succeeds leaves its four entries for the time to live.
  pub list-fills :
      (class : NodeClass) (spec : NodeClassSpec) (c d : C) (its : List (InstanceType Requirements))
      → list s zones blocked cache setting cloud now clusters true class spec c ≡ (ok its, d)
      → (od : List InstanceTypeQuotaItem) × (spot : List InstanceTypeQuotaItem) × (ls : Dict
          (List PodLimitsInstance))
        × (cl : Cluster) × ((later : ℕ)
            → now ≤ later
            → later ≤ now + cache.ttl
            → IsWarm cache later (setting.hash_zones class) od spot ls cl d)
  unfolding list
  list-fills class spec c d its h = elim (Result-cases (version_of setting)) [
    | inr (e, v) ↦ cc (ap (λ p. p.0) (rw (list, v) at h))
    | inl (above, v) ↦ elim (Bool-cases (is_empty class.subnets)) [
      | inl bare ↦ cc (ap (λ p. p.0) (rw (list, v, bare) at h))
      | inr some_subnets ↦
          let filled =
            list_cached-fills true class spec above (flush c) d its (get-flush c now)
              (rw (list, v, some_subnets) at h) in
          (
            filled.0,
            filled.1,
            filled.2,
            filled.3,
            λ later since fresh.
                subst
                  (λ (x : C).
                    IsWarm cache later (setting.hash_zones class) filled.0 filled.1 filled.2
                      filled.3 x)
                  filled.4
                  (puts-IsWarm cache now later (setting.hash_zones class) filled.0 filled.1 filled.2
                    filled.3 (flush c) since fresh),
          )
    ]
  ]
