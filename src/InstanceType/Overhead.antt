-- ===== src/InstanceType/Overhead.antt =====
-- pkg/providers/instancetype/types.go: what the node keeps from its pods. `none` is a panic, of
-- MustParse on a text that the user gave. The overrides of the kubelet are nil in every call of this
-- program; they are parameters as in the source.
use Prim.Native.Char.{code}
use karpenter_provider_tke.Prelude.{
  ℕ, ◌+◌, ◌*◌, ◌/◌, ◌^◌, String, Bool, false, ◌&&◌, Option, none, some, List, [], ◌∷◌, eqb,
  if◌then◌else◌, ℤ, pos, negsuc, ◌+ℤ◌, ◌*ℤ◌, ltb_ℤ, wrap64, Dict, lookup, insert,
}
use karpenter_provider_tke.Strconv.{is_blank}
use karpenter_provider_tke.Labels
use karpenter_provider_tke.Scheduling.{Quantity, ResourceList, whole}
use karpenter_provider_tke.InstanceType.Level.{Float64, Level}
use karpenter_provider_tke.InstanceType.Level

infixl 5 ◌>>=◌
abbrev pub ◌>>=◌ {ℓ κ} : {A : Type ℓ} {B : Type κ} → Option A → (A → Option B) → Option B
none >>= f = none
some a >>= f = f a

-- Quantity.Value: whole units, rounded away from zero
unfoldable pub value : Quantity → ℤ
value (pos n) = pos ((n + 999) / 1000)
value (negsuc n) = negsuc (n / 1000)

-- "%dMi"
abbrev pub mebi : ℤ → Quantity
mebi z = whole (z *ℤ pos (1024 * 1024))

-- lo.Assign of two maps: the second one's entries win
unfoldable pub assign : ResourceList → ResourceList → ResourceList
assign r [] = r
assign r ((k, q) ∷ rest) = assign (insert k q r) rest

-- resource.ParseQuantity and resources.MaxResources
pub record Quantities : Type 0 where
  pub parse : String → Option Quantity
  pub max_resources : ResourceList → ResourceList → ResourceList

-- lo.MapEntries with MustParse
parse_entries : Quantities → Dict String → Option ResourceList
parse_entries qs [] = some []
parse_entries qs ((k, v) ∷ m) = do q ← qs.parse v; r ← parse_entries qs m; some ((k, q) ∷ r)

-- systemReservedResources
unfoldable pub system_reserved_resources : Quantities → Dict String → Option ResourceList
unfolding parse_entries
system_reserved_resources qs reserved = parse_entries qs reserved

-- strings.HasSuffix(v, "%")
ends_percent : String → Bool
ends_percent String.[] = false
ends_percent (String.◌∷◌ c s) = if is_blank s then eqb (code c) b'%' else ends_percent s

trim_left : String → String
trim_left String.[] = ""
trim_left (String.◌∷◌ c s) = if eqb (code c) b'%' then trim_left s else String.◌∷◌ c s

trim_right : String → String
trim_right String.[] = ""
trim_right (String.◌∷◌ c s) =
    let rest = trim_right s in if is_blank rest && eqb (code c) b'%' then "" else String.◌∷◌ c rest

module _ (fl : Float64) where
  abbrev level : ℕ → ℕ → ℕ → ℕ → ℕ → Level fl.F
  level low high base n d = record {
    low = pos low;
    high = pos high;
    base = pos base;
    fact = fl.ratio n d;
  }

  abbrev pub mem_level : List (Level fl.F)
  mem_level =
      level 0 4 0 256 1
      ∷ level 4 8 0 2048 10
      ∷ level 8 16 0 1024 10
      ∷ level 16 128 0 6144 100
      ∷ level 128 (2 ^ 31) 0 2048 100
      ∷ []

  -- above Kubernetes 1.29
  abbrev pub cpu_level : List (Level fl.F)
  cpu_level =
      level 0 1000 60 0 1
      ∷ level 1000 2000 0 1 100
      ∷ level 2000 4000 0 5 1000
      ∷ level 4000 (2 ^ 31) 0 25 10000
      ∷ []

  abbrev pub cpu_level_legacy : List (Level fl.F)
  cpu_level_legacy =
      level 0 4000 100 0 1
      ∷ level 4000 64000 0 25 1000
      ∷ level 64000 128000 0 125 10000
      ∷ level 128000 (2 ^ 31) 0 5 1000
      ∷ []

  -- what kubeReservedResources sets before the overrides. `above_1_29` is the test of the version.
  unfoldable pub kube_reserved_memory : Bool → Quantity → ℤ → Quantity
  kube_reserved_memory above_1_29 pods mem_in_gb =
      let by_pods = mebi (wrap64 (wrap64 (pos 20 *ℤ value pods) +ℤ pos 256)) in
      let legacy = mebi (Level.eval fl mem_level mem_in_gb) in
      if above_1_29 then (if ltb_ℤ legacy by_pods then legacy else by_pods) else legacy

  unfoldable pub kube_reserved_cpu : Bool → Quantity → Quantity
  kube_reserved_cpu above_1_29 cpus =
      Level.eval fl (if above_1_29 then cpu_level else cpu_level_legacy) cpus

  -- kubeReservedResources
  unfoldable pub kube_reserved_resources :
      Quantities → Bool → Quantity → Quantity → ℤ → Dict String → Option ResourceList
  unfolding parse_entries
  kube_reserved_resources qs above_1_29 cpus pods mem_in_gb kube_reserved = do
    overrides ← parse_entries qs kube_reserved
    let memory = kube_reserved_memory above_1_29 pods mem_in_gb
    let cpu = kube_reserved_cpu above_1_29 cpus
    some (
        assign (insert Labels.resource_cpu cpu (insert Labels.resource_memory memory [])) overrides)

  -- strconv.ParseFloat, the test `p == 100`, and Quantity.AsApproximateFloat64
  pub record Percentages : Type 0 where
    pub parse_float : String → Option fl.F
    pub is_hundred : fl.F → Bool
    pub approximate : Quantity → fl.F

  -- mustParsePercentage
  must_parse_percentage : Percentages → String → Option fl.F
  unfolding trim_left trim_right
  must_parse_percentage ps v = do
    p ← ps.parse_float (trim_left (trim_right v))
    some (if ps.is_hundred p then fl.of_int (pos 0) else p)

  -- computeEvictionSignal
  unfoldable pub compute_eviction_signal :
      Quantities → Percentages → Quantity → String → Option Quantity
  unfolding ends_percent must_parse_percentage
  compute_eviction_signal qs ps capacity signal_value =
      if ends_percent signal_value
      then (do
        p ← must_parse_percentage ps signal_value
        some (whole (fl.ceil (fl.mul (fl.div (ps.approximate capacity) (fl.of_int (pos 100))) p))))
      else qs.parse signal_value

  -- one signal of the loop of evictionThreshold
  signal :
      Quantities
      → Percentages
      → Dict String
      → String
      → String
      → Quantity
      → ResourceList
      → Option ResourceList
  unfolding compute_eviction_signal
  signal qs ps m key name capacity temp = elim (lookup key m) [
    | none ↦ some temp
    | some v ↦ do q ← compute_eviction_signal qs ps capacity v; some (insert name q temp)
  ]

  -- evictionThreshold
  unfoldable pub eviction_threshold :
      Quantities → Percentages → Quantity → Quantity → Option (Dict String) → Option ResourceList
  unfolding signal
  eviction_threshold qs ps memory storage eviction_hard =
      let tenth =
        fl.ceil (
          fl.mul (fl.div (fl.of_int (value storage)) (fl.of_int (pos 100))) (fl.of_int (pos 10))) in
      let overhead =
        insert Labels.resource_ephemeral_storage (whole tenth)
          (insert Labels.resource_memory (mebi (pos 100)) []) in
      elim eviction_hard [
        | none ↦ some overhead
        | some m ↦ do
          temp ← signal qs ps m "memory.available" Labels.resource_memory memory []
          temp' ← signal qs ps m "nodefs.available" Labels.resource_ephemeral_storage storage temp
          some (assign overhead (qs.max_resources [] temp'))
      ]
