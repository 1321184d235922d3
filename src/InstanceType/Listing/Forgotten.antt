-- ===== src/InstanceType/Listing/Forgotten.antt =====
-- A listing that finds no cluster in the cache does not use the cluster that it asks for.
use Prim.Native.Char.{code}
use text.Mathlib.TextLemmas.{cons-append}
use karpenter_provider_tke.Prelude.{
  ℕ, ◌≡◌, ◌≢◌, refl, eq_iff, ap, ◌∙◌, arith, String, ◌==◌, Bool, true, false, Option, none, some,
  List, ◌∷◌, if◌then◌else◌, is_empty, Result, ok, err, Dict, Result-cases, Bool-cases, inl, inr,
}
use karpenter_provider_tke.Scheduling.{Scheduling}
use karpenter_provider_tke.Zone.{ZoneProvider}
use karpenter_provider_tke.NodeClass.{NodeClass}
use karpenter_provider_tke.InstanceType.Capacity.{InstanceTypeQuotaItem, PodLimitsInstance}
use karpenter_provider_tke.InstanceType.New.{Cluster}
use karpenter_provider_tke.InstanceType.Query.{Cloud, get_eni_limits}
use karpenter_provider_tke.InstanceType.Listing.{
  Entry, types_entry, limits_entry, cluster_entry, ProviderCache, Setting, cluster_key,
  on_demand_key, spot_key, limits_key, then_run, cached_types, found_types, cached_limits,
  found_limits, cluster_info, list_limited, list_typed, asked_types, list_on_demand, list_cached,
  list, version_of,
}
use karpenter_provider_tke.Machines.Creation.{NodeClassSpec}

abbrev head_code : String → ℕ
head_code String.[] = 0
head_code (String.◌∷◌ c s) = code c

-- A key that starts in another letter is not that of the cluster.
starts-apart : (k : String) → head_code k ≢ b'c' → k == cluster_key ≡ false
starts-apart k other = elim (Bool-cases (k == cluster_key)) [
  | inl same ↦ absurd (other (ap head_code ((eq_iff k cluster_key).0 same)))
  | inr apart ↦ apart
]

pub on_demand_key-apart : (hash : String) → on_demand_key hash == cluster_key ≡ false
on_demand_key-apart hash =
    starts-apart (on_demand_key hash) (rw cons-append (λ e. omega (arith, e)))

pub spot_key-apart : (hash : String) → spot_key hash == cluster_key ≡ false
spot_key-apart hash = starts-apart (spot_key hash) (rw cons-append (λ e. omega (arith, e)))

pub limits_key-apart : (hash : String) → limits_key hash == cluster_key ≡ false
limits_key-apart hash = starts-apart (limits_key hash) (rw cons-append (λ e. omega (arith, e)))

module _ (cache : ProviderCache) (now : ℕ) where
  open cache use {C, get, put, flush, get-put, get-flush}

  -- no cluster is in the cache
  abbrev pub Unknown : C → Type 0
  Unknown c = get c now cluster_key ≡ none

  pub put-Unknown :
      (c : C) (k : String) (v : Entry)
      → k == cluster_key ≡ false
      → Unknown c
      → Unknown (put c now k v)
  put-Unknown c k v apart unknown =
      get-put c now now k cluster_key v (omega arith) ∙ rw apart unknown

  pub found_types-Unknown :
      (key : String) (asked : Result (List InstanceTypeQuotaItem)) (c : C) (o : Option Entry)
      → key == cluster_key ≡ false
      → Unknown c
      → Unknown (found_types cache now key asked c o).1
  found_types-Unknown key asked c (some (types_entry ts)) apart unknown = unknown
  found_types-Unknown key asked c (some (limits_entry ls)) apart unknown = unknown
  found_types-Unknown key asked c (some (cluster_entry cl)) apart unknown = unknown
  found_types-Unknown key (ok ts) c none apart unknown =
      put-Unknown c key (types_entry ts) apart unknown
  found_types-Unknown key (err e) c none apart unknown = unknown

  pub found_limits-Unknown :
      (key : String) (asked : Result (Dict (List PodLimitsInstance))) (c : C) (o : Option Entry)
      → key == cluster_key ≡ false
      → Unknown c
      → Unknown (found_limits cache now key asked c o).1
  found_limits-Unknown key asked c (some (types_entry ts)) apart unknown = unknown
  found_limits-Unknown key asked c (some (limits_entry ls)) apart unknown = unknown
  found_limits-Unknown key asked c (some (cluster_entry cl)) apart unknown = unknown
  found_limits-Unknown key (ok ls) c none apart unknown =
      put-Unknown c key (limits_entry ls) apart unknown
  found_limits-Unknown key (err e) c none apart unknown = unknown

  pub start-Unknown :
      (refresh : Bool) (c : C)
      → (if refresh then none else get c now cluster_key) ≡ none
      → Unknown (if refresh then flush c else c)
  start-Unknown refresh c unknown = elim (Bool-cases refresh) [
    | inl fresh ↦ rw fresh (get-flush c now cluster_key)
    | inr old ↦ rw old (rw old at unknown)
  ]

  -- Two computations with the same first step give the same answer, if they do from its end on.
  then_run-same {ℓ κ} :
      {A : Type ℓ} {B : Type κ} (r : Result A × C) (f g : A → C → Result B × C)
      → ((x : A) → (f x r.1).0 ≡ (g x r.1).0)
      → (then_run cache now r f).0 ≡ (then_run cache now r g).0
  then_run-same (ok x, c) f g same = same x
  then_run-same (err e, c) f g same = refl

-- The cloud describes a cluster.
abbrev pub describes : Cluster → List (Option Cluster) → Result (List (Option Cluster))
describes cl rest = ok (some cl ∷ rest)

module _ (s : Scheduling) (zones : ZoneProvider) (blocked : String → String → String → Bool)
    (cache : ProviderCache) (setting : Setting) (cloud : Cloud) (now : ℕ) where
  open cache use {C, get, flush, get-flush}

  list_limited-same :
      (one other : Cluster) (rest more : List (Option Cluster)) (class : NodeClass)
      (spec : NodeClassSpec) (above : Bool) (od_types spot_types : List InstanceTypeQuotaItem)
      (limits : Dict (List PodLimitsInstance)) (c : C)
      → Unknown cache now c
      → (list_limited s zones blocked cache setting cloud now
          (describes one rest)
          class
          spec
          above
          od_types
          spot_types
          limits
          c).0
        ≡ (list_limited s zones blocked cache setting cloud now
            (describes other more)
            class
            spec
            above
            od_types
            spot_types
            limits
            c).0
  unfolding list_limited cluster_info
  list_limited-same one other rest more class spec above od_types spot_types limits c unknown =
      rw (list_limited, cluster_info, unknown) refl

  list_typed-same :
      (one other : Cluster) (rest more : List (Option Cluster)) (class : NodeClass)
      (spec : NodeClassSpec) (above : Bool) (od_types spot_types : List InstanceTypeQuotaItem)
      (c : C)
      → Unknown cache now c
      → (list_typed s zones blocked cache setting cloud now
          (describes one rest)
          class
          spec
          above
          od_types
          spot_types
          c).0
        ≡ (list_typed s zones blocked cache setting cloud now
            (describes other more)
            class
            spec
            above
            od_types
            spot_types
            c).0
  unfolding list_typed cached_limits
  list_typed-same one other rest more class spec above od_types spot_types c unknown =
      let key = limits_key (setting.hash_zones class) in
      let asked = get_eni_limits cloud now class in
      then_run-same cache now (cached_limits cache now key asked c)
        (list_limited s zones blocked cache setting cloud now (describes one rest) class spec above
          od_types spot_types)
        (list_limited s zones blocked cache setting cloud now (describes other more) class spec
          above od_types spot_types)
        λ limits.
          list_limited-same one other rest more class spec above od_types spot_types limits _ (
            found_limits-Unknown cache now key asked c (get c now key)
              (limits_key-apart (setting.hash_zones class)) unknown)

  list_on_demand-same :
      (one other : Cluster) (rest more : List (Option Cluster)) (refresh : Bool) (class : NodeClass)
      (spec : NodeClassSpec) (above : Bool) (od_types : List InstanceTypeQuotaItem) (c : C)
      → Unknown cache now c
      → (list_on_demand s zones blocked cache setting cloud now
          (describes one rest)
          refresh
          class
          spec
          above
          od_types
          c).0
        ≡ (list_on_demand s zones blocked cache setting cloud now
            (describes other more)
            refresh
            class
            spec
            above
            od_types
            c).0
  unfolding list_on_demand cached_types
  list_on_demand-same one other rest more refresh class spec above od_types c unknown =
      let key = spot_key (setting.hash_zones class) in
      let asked =
        asked_types s zones blocked cache setting cloud now (describes one rest) refresh class
          true in
      then_run-same cache now (cached_types cache now key asked c)
        (list_typed s zones blocked cache setting cloud now (describes one rest) class spec above
          od_types)
        (list_typed s zones blocked cache setting cloud now (describes other more) class spec above
          od_types)
        λ spot_types. list_typed-same one other rest more class spec above od_types spot_types _ (
          found_types-Unknown cache now key asked c (get c now key)
            (spot_key-apart (setting.hash_zones class)) unknown)

  list_cached-same :
      (one other : Cluster) (rest more : List (Option Cluster)) (refresh : Bool) (class : NodeClass)
      (spec : NodeClassSpec) (above : Bool) (c : C)
      → Unknown cache now c
      → (list_cached s zones blocked cache setting cloud now
          (describes one rest)
          refresh
          class
          spec
          above
          c).0
        ≡ (list_cached s zones blocked cache setting cloud now
            (describes other more)
            refresh
            class
            spec
            above
            c).0
  unfolding list_cached cached_types
  list_cached-same one other rest more refresh class spec above c unknown =
      let key = on_demand_key (setting.hash_zones class) in
      let asked =
        asked_types s zones blocked cache setting cloud now (describes one rest) refresh class
          false in
      then_run-same cache now (cached_types cache now key asked c)
        (list_on_demand s zones blocked cache setting cloud now (describes one rest) refresh class
          spec above)
        (list_on_demand s zones blocked cache setting cloud now (describes other more) refresh class
          spec above)
        λ od_types. list_on_demand-same one other rest more refresh class spec above od_types _ (
          found_types-Unknown cache now key asked c (get c now key)
            (on_demand_key-apart (setting.hash_zones class)) unknown)

  -- The answer is the same for any two clusters that the cloud describes.
  pub list-same :
      (one other : Cluster) (rest more : List (Option Cluster)) (refresh : Bool) (class : NodeClass)
      (spec : NodeClassSpec) (c : C)
      → (if refresh then none else get c now cluster_key) ≡ none
      → (list s zones blocked cache setting cloud now (describes one rest) refresh class spec c).0
        ≡ (list s zones blocked cache setting cloud now
            (describes other more)
            refresh
            class
            spec
            c).0
  unfolding list
  list-same one other rest more refresh class spec c unknown =
      let start = start-Unknown cache now refresh c unknown in
      elim (Result-cases (version_of setting)) [
        | inr (e, failed) ↦ rw (list, failed) refl
        | inl (above, known) ↦ elim (Bool-cases (is_empty class.subnets)) [
          | inl nothing ↦ rw (list, known, nothing) refl
          | inr subnets ↦
              rw (list, known, subnets)
                (list_cached-same one other rest more refresh class spec above _ start)
        ]
      ]
