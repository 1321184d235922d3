-- ===== src/InstanceType/Listing/Warm.antt =====
-- A listing from the cache that a refreshing listing has filled.
use karpenter_provider_tke.Prelude.{
  ℕ, ◌+◌, ◌≤◌, ◌≡◌, refl, eq_refl, ap, ◌∙◌, arith, String, ◌==◌, true, false, Option, none, some,
  List, [], ◌∷◌, leb, Result, ok, err, Dict, Result-cases, inl, inr,
}
use karpenter_provider_tke.InstanceType.Capacity.{InstanceTypeQuotaItem, PodLimitsInstance}
use karpenter_provider_tke.InstanceType.New.{Cluster}
use karpenter_provider_tke.InstanceType.Listing.{
  Entry, types_entry, limits_entry, cluster_entry, ProviderCache, cluster_key, on_demand_key,
  spot_key, limits_key, then_run, cached_types, cached_limits, cluster_info,
}
use karpenter_provider_tke.InstanceType.Listing.Keys.{
  spot-on_demand, on_demand-limits, spot-limits, flip,
}
use karpenter_provider_tke.InstanceType.Listing.Forgotten.{
  on_demand_key-apart, spot_key-apart, limits_key-apart,
}

module _ (cache : ProviderCache) where
  open cache use {C, ttl, get, put, flush, get-put, get-flush}

  -- What a write leaves of the other keys, and what it sets.
  pub get-put_other :
      (c : C) (now later : ℕ) (k j : String) (v : Entry)
      → now ≤ later
      → k == j ≡ false
      → get (put c now k v) later j ≡ get c later j
  get-put_other c now later k j v h other = get-put c now later k j v h ∙ rw other refl

  pub get-put_same :
      (c : C) (now later : ℕ) (k : String) (v : Entry)
      → now ≤ later
      → later ≤ now + ttl
      → get (put c now k v) later k ≡ some v
  get-put_same c now later k v h fresh =
      let within : leb later (now + ttl) ≡ true = ground (arith, fresh) in
      get-put c now later k k v h ∙ rw (eq_refl k, within) refl

  module _ (now : ℕ) where
    pub then_run-ok :
        {A B : Type 0} (r : Result A × C) (f : A → C → Result B × C) (b : B) (d : C)
        → then_run cache now r f ≡ (ok b, d)
        → (a : A) × (r.0 ≡ ok a) × (f a r.1 ≡ (ok b, d))
    then_run-ok (ok a, c) f b d h = (a, refl, h)
    then_run-ok (err e, c) f b d h = cc (ap (λ p. p.0) h)

    pub cached_types-stores :
        (key : String) (asked : Result (List InstanceTypeQuotaItem)) (c : C)
        (ts : List InstanceTypeQuotaItem)
        → get c now key ≡ none
        → (cached_types cache now key asked c).0 ≡ ok ts
        → (cached_types cache now key asked c).1 ≡ put c now key (types_entry ts)
    unfolding cached_types
    cached_types-stores key asked c ts missing h = elim (Result-cases asked) [
      | inl (us, e) ↦
          let same : ok us ≡ ok ts = rw (cached_types, missing, e) at h in
          rw (cached_types, missing, e) (ap (λ x. put c now key (types_entry x)) (cc))
      | inr (f, e) ↦ cc (rw (cached_types, missing, e) at h)
    ]

    pub cached_limits-stores :
        (key : String) (asked : Result (Dict (List PodLimitsInstance))) (c : C)
        (ls : Dict (List PodLimitsInstance))
        → get c now key ≡ none
        → (cached_limits cache now key asked c).0 ≡ ok ls
        → (cached_limits cache now key asked c).1 ≡ put c now key (limits_entry ls)
    unfolding cached_limits
    cached_limits-stores key asked c ls missing h = elim (Result-cases asked) [
      | inl (ms, e) ↦
          let same : ok ms ≡ ok ls = rw (cached_limits, missing, e) at h in
          rw (cached_limits, missing, e) (ap (λ x. put c now key (limits_entry x)) (cc))
      | inr (f, e) ↦ cc (rw (cached_limits, missing, e) at h)
    ]

    pub cluster_info-stores :
        (clusters : Result (List (Option Cluster))) (c : C) (used : Cluster)
        → get c now cluster_key ≡ none
        → (cluster_info cache now clusters c).0 ≡ ok used
        → (cl : Cluster) × ((cluster_info cache now clusters c).1
            ≡ put c now cluster_key (cluster_entry cl))
    unfolding cluster_info
    cluster_info-stores (err e) c used missing h = cc (rw (cluster_info, missing) at h)
    cluster_info-stores (ok []) c used missing h = cc (rw (cluster_info, missing) at h)
    cluster_info-stores (ok (none ∷ rest)) c used missing h = cc (rw (cluster_info, missing) at h)
    cluster_info-stores (ok (some cl ∷ rest)) c used missing h =
        (cl, rw (cluster_info, missing) refl)

  -- the four entries of a listing, under a hash of zones
  abbrev pub IsWarm :
      ℕ
      → String
      → List InstanceTypeQuotaItem
      → List InstanceTypeQuotaItem
      → Dict (List PodLimitsInstance)
      → Cluster
      → C
      → Type 0
  IsWarm later hash od spot limits cl c =
      (get c later (on_demand_key hash) ≡ some (types_entry od))
      × (get c later (spot_key hash) ≡ some (types_entry spot))
      × (get c later (limits_key hash) ≡ some (limits_entry limits))
      × (get c later cluster_key ≡ some (cluster_entry cl))

  pub puts-IsWarm :
      (now later : ℕ) (hash : String) (od spot : List InstanceTypeQuotaItem)
      (limits : Dict (List PodLimitsInstance)) (cl : Cluster) (c : C)
      → now ≤ later
      → later ≤ now + ttl
      → IsWarm later hash od spot limits cl (
          put
            (put
              (put
                (put c now (on_demand_key hash) (types_entry od))
                now
                (spot_key hash)
                (types_entry spot))
              now
              (limits_key hash)
              (limits_entry limits))
            now
            cluster_key
            (cluster_entry cl))
  puts-IsWarm now later hash od spot limits cl c h fresh =
      let ok_od = flip (on_demand_key hash) cluster_key (on_demand_key-apart hash) in
      let ok_spot = flip (spot_key hash) cluster_key (spot_key-apart hash) in
      let ok_limits = flip (limits_key hash) cluster_key (limits_key-apart hash) in
      let below_od = flip (on_demand_key hash) (limits_key hash) (on_demand-limits hash) in
      let below_spot = flip (spot_key hash) (limits_key hash) (spot-limits hash) in
      (
        get-put_other _ now later _ _ _ h ok_od
            ∙ get-put_other _ now later _ _ _ h below_od
            ∙ get-put_other _ now later _ _ _ h (spot-on_demand hash)
            ∙ get-put_same c now later (on_demand_key hash) (types_entry od) h fresh,
        get-put_other _ now later _ _ _ h ok_spot
            ∙ get-put_other _ now later _ _ _ h below_spot
            ∙ get-put_same _ now later (spot_key hash) (types_entry spot) h fresh,
        get-put_other _ now later _ _ _ h ok_limits
            ∙ get-put_same _ now later (limits_key hash) (limits_entry limits) h fresh,
        get-put_same _ now later cluster_key (cluster_entry cl) h fresh,
      )
