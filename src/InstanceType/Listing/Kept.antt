-- ===== src/InstanceType/Listing/Kept.antt =====
-- A listing that finds no cluster in the cache stores the one that it asks for, and does not use it.
use karpenter_provider_tke.Prelude.{
  ℕ, ◌≡◌, arith, String, Bool, true, false, Option, none, some, List, if◌then◌else◌, is_empty,
  Result, ok, err, Dict, Result-cases, Bool-cases, inl, inr,
}
use karpenter_provider_tke.Scheduling.{Scheduling}
use karpenter_provider_tke.Zone.{ZoneProvider}
use karpenter_provider_tke.NodeClass.{NodeClass}
use karpenter_provider_tke.InstanceType.Capacity.{InstanceTypeQuotaItem, PodLimitsInstance}
use karpenter_provider_tke.InstanceType.New.{Cluster}
use karpenter_provider_tke.InstanceType.Query.{Cloud, get_eni_limits}
use karpenter_provider_tke.InstanceType.Listing.{
  cluster_entry, ProviderCache, Setting, cluster_key, on_demand_key, spot_key, limits_key, then_run,
  cached_types, cached_limits, cluster_info, list_limited, list_typed, asked_types, list_on_demand,
  list_cached, list, version_of,
}
use karpenter_provider_tke.Machines.Creation.{NodeClassSpec}
use karpenter_provider_tke.InstanceType.Listing.Warm.{get-put_same}
use karpenter_provider_tke.InstanceType.Listing.Forgotten.{
  Unknown, found_types-Unknown, found_limits-Unknown, start-Unknown, describes, list-same,
  on_demand_key-apart, spot_key-apart, limits_key-apart,
}

module _ (cache : ProviderCache) (now : ℕ) where
  open cache use {C, get}

  -- After a run that gives an answer, the cluster is in the cache.
  abbrev pub Stores {ℓ} : {A : Type ℓ} → Cluster → Result A × C → Type 0
  Stores cl (ok a, c) = get c now cluster_key ≡ some (cluster_entry cl)
  Stores cl (err e, c) = Unit

  then_run-Stores {ℓ κ} :
      {A : Type ℓ} {B : Type κ} (cl : Cluster) (r : Result A × C) (f : A → C → Result B × C)
      → ((x : A) → Stores cl (f x r.1))
      → Stores cl (then_run cache now r f)
  then_run-Stores cl (ok x, c) f stores = stores x
  then_run-Stores cl (err e, c) f stores = tt

  Stores-any {ℓ} :
      {A : Type ℓ} (cl : Cluster) (r : Result A) (c : C)
      → get c now cluster_key ≡ some (cluster_entry cl)
      → Stores cl (r, c)
  Stores-any cl (ok a) c h = h
  Stores-any cl (err e) c h = tt

module _ (s : Scheduling) (zones : ZoneProvider) (blocked : String → String → String → Bool)
    (cache : ProviderCache) (setting : Setting) (cloud : Cloud) (now : ℕ) (cl : Cluster)
    (rest : List (Option Cluster)) where
  open cache use {C, get, flush}

  abbrev clusters : Result (List (Option Cluster))
  clusters = describes cl rest

  list_limited-Stores :
      (class : NodeClass) (spec : NodeClassSpec) (above : Bool)
      (od_types spot_types : List InstanceTypeQuotaItem) (limits : Dict (List PodLimitsInstance))
      (c : C)
      → Unknown cache now c
      → Stores cache now cl (
          list_limited s zones blocked cache setting cloud now clusters class spec above od_types
            spot_types limits c)
  unfolding list_limited cluster_info
  list_limited-Stores class spec above od_types spot_types limits c unknown =
      rw (list_limited, cluster_info, unknown)
        (Stores-any cache now cl _ _
          (get-put_same cache c now now cluster_key (cluster_entry cl) (omega arith) (omega arith)))

  list_typed-Stores :
      (class : NodeClass) (spec : NodeClassSpec) (above : Bool)
      (od_types spot_types : List InstanceTypeQuotaItem) (c : C)
      → Unknown cache now c
      → Stores cache now cl (
          list_typed s zones blocked cache setting cloud now clusters class spec above od_types
            spot_types c)
  unfolding list_typed cached_limits
  list_typed-Stores class spec above od_types spot_types c unknown =
      let key = limits_key (setting.hash_zones class) in
      let asked = get_eni_limits cloud now class in
      then_run-Stores cache now cl (cached_limits cache now key asked c)
        (list_limited s zones blocked cache setting cloud now clusters class spec above od_types
          spot_types)
        λ limits. list_limited-Stores class spec above od_types spot_types limits _ (
          found_limits-Unknown cache now key asked c (get c now key)
            (limits_key-apart (setting.hash_zones class)) unknown)

  list_on_demand-Stores :
      (refresh : Bool) (class : NodeClass) (spec : NodeClassSpec) (above : Bool)
      (od_types : List InstanceTypeQuotaItem) (c : C)
      → Unknown cache now c
      → Stores cache now cl (
          list_on_demand s zones blocked cache setting cloud now clusters refresh class spec above
            od_types c)
  unfolding list_on_demand cached_types
  list_on_demand-Stores refresh class spec above od_types c unknown =
      let key = spot_key (setting.hash_zones class) in
      let asked = asked_types s zones blocked cache setting cloud now clusters refresh class true in
      then_run-Stores cache now cl (cached_types cache now key asked c)
        (list_typed s zones blocked cache setting cloud now clusters class spec above od_types)
        λ spot_types. list_typed-Stores class spec above od_types spot_types _ (
          found_types-Unknown cache now key asked c (get c now key)
            (spot_key-apart (setting.hash_zones class)) unknown)

  list_cached-Stores :
      (refresh : Bool) (class : NodeClass) (spec : NodeClassSpec) (above : Bool) (c : C)
      → Unknown cache now c
      → Stores cache now cl
          (list_cached s zones blocked cache setting cloud now clusters refresh class spec above c)
  unfolding list_cached cached_types
  list_cached-Stores refresh class spec above c unknown =
      let key = on_demand_key (setting.hash_zones class) in
      let asked =
        asked_types s zones blocked cache setting cloud now clusters refresh class false in
      then_run-Stores cache now cl (cached_types cache now key asked c)
        (list_on_demand s zones blocked cache setting cloud now clusters refresh class spec above)
        λ od_types. list_on_demand-Stores refresh class spec above od_types _ (
          found_types-Unknown cache now key asked c (get c now key)
            (on_demand_key-apart (setting.hash_zones class)) unknown)

  list-Stores :
      (refresh : Bool) (class : NodeClass) (spec : NodeClassSpec) (c : C)
      → (if refresh then none else get c now cluster_key) ≡ none
      → Stores cache now cl
          (list s zones blocked cache setting cloud now clusters refresh class spec c)
  unfolding list
  list-Stores refresh class spec c unknown = elim (Result-cases (version_of setting)) [
    | inr (e, failed) ↦ rw (list, failed) tt
    | inl (above, known) ↦ elim (Bool-cases (is_empty class.subnets)) [
      | inl nothing ↦ rw (list, known, nothing) tt
      | inr subnets ↦
          rw (list, known, subnets)
            (list_cached-Stores refresh class spec above _
              (start-Unknown cache now refresh c unknown))
    ]
  ]

module _ (s : Scheduling) (zones : ZoneProvider) (blocked : String → String → String → Bool)
    (cache : ProviderCache) (setting : Setting) (cloud : Cloud) (now : ℕ) where
  open cache use {C, get}

  -- A listing that refreshes, or that finds no cluster in the cache, gives the same answer for any
  -- two clusters that the cloud describes, so it does not use the cluster; and when it gives
  -- instance types, the described cluster is in the cache afterwards.
  pub list-forgets :
      (one other : Cluster) (rest more : List (Option Cluster)) (refresh : Bool) (class : NodeClass)
      (spec : NodeClassSpec) (c : C)
      → (if refresh then none else get c now cluster_key) ≡ none
      → ((list s zones blocked cache setting cloud now (describes one rest) refresh class spec c).0
          ≡ (list s zones blocked cache setting cloud now
              (describes other more)
              refresh
              class
              spec
              c).0)
        × Stores cache now one
            (list s zones blocked cache setting cloud now (describes one rest) refresh class spec c)
  list-forgets one other rest more refresh class spec c unknown = (
    list-same s zones blocked cache setting cloud now one other rest more refresh class spec c
        unknown,
    list-Stores s zones blocked cache setting cloud now one rest refresh class spec c unknown,
  )
