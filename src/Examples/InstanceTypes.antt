-- ===== src/Examples/InstanceTypes.antt =====
-- The instance type theorems at small machines.
use karpenter_provider_tke.Prelude.{
  ℕ, ◌+◌, ◌*◌, ◌≡◌, refl, String, true, false, [], ◌∷◌, ◌++◌, arith, pos, inl, inr, ◌⊎◌,
}
use karpenter_provider_tke.Labels
use karpenter_provider_tke.Zone.{new_default_provider}
use karpenter_provider_tke.InstanceType.Kdump.{kdump_levels, gi}
use karpenter_provider_tke.InstanceType.Kdump
use karpenter_provider_tke.InstanceType.Capacity.{InstanceTypeQuotaItem}
use karpenter_provider_tke.InstanceType.Blacklist.{
  is_blocked, block_instance_type, get_insufficient_failure_count,
}
use karpenter_provider_tke.InstanceType.Blacklist.Keys.{spot, wildcard, blocked_key-injective}
use karpenter_provider_tke.InstanceType.Blacklist.Blocking.{is_blocked-block}
use karpenter_provider_tke.InstanceType.Blacklist.Counting.{adds, count-adds}
use karpenter_provider_tke.InstanceType.Offerings.{offerings_at, join_types}
use karpenter_provider_tke.InstanceType.Offerings.Complete.{offered, offerings-join_types}
use karpenter_provider_tke.Examples.{differ, memory_cache, simple_scheduling}

abbrev s5 : String
s5 = "S5"

abbrev zone_z : String
zone_z = "z"

eval-kdump_levels_example : Kdump.eval kdump_levels (pos (2 * gi)) ≡ pos (256 * 1024 * 1024)
eval-kdump_levels_example = Kdump.eval-kdump_levels (2 * gi)

abbrev pub machine_of : String → ℕ → InstanceTypeQuotaItem
machine_of name cores = record {
  zone = "ap-guangzhou-3";
  instance_family = "S5";
  instance_type = name;
  cpu = pos cores;
  memory = pos 16;
  gpu = pos 0;
  inventory = pos 5;
  status = "SELL";
  unit_price = 100;
  arch = "amd64";
}

is_blocked-block_example :
    is_blocked memory_cache (block_instance_type memory_cache [] 5 "*" "spot" "*") 9 "S5" "spot" "z"
    ≡ true
is_blocked-block_example =
    is_blocked-block memory_cache [] 5 9 "*" "spot" "*" "S5" "spot" "z" (omega arith) (omega arith)
      (inr refl) (inl refl) (inr refl)

s6_uncovered : ¬ (
    ((s5 ≡ "S6") ⊎ (s5 ≡ "*"))
    × ((spot ≡ spot) ⊎ (spot ≡ wildcard))
    × ((zone_z ≡ "z") ⊎ (zone_z ≡ "*")))
s6_uncovered (inl e, f, g) = differ "S5" "S6" refl e
s6_uncovered (inr e, f, g) = differ "S5" "*" refl e

count-adds_example :
    get_insufficient_failure_count memory_cache
      (adds memory_cache [] (1 ∷ 2 ∷ 3 ∷ []) "S5" "spot" "z")
      4
      "S5"
      "spot"
      "z"
    ≡ get_insufficient_failure_count memory_cache [] 1 "S5" "spot" "z" + 3
count-adds_example = count-adds memory_cache [] 1 4 (2 ∷ 3 ∷ []) "S5" "spot" "z" (omega arith)

blocked_key-injective_example : (s5 ≡ "S5") × (spot ≡ spot) × (zone_z ≡ "z")
blocked_key-injective_example =
    blocked_key-injective "S5" "S5" spot spot "z" "z" (omega arith) (omega arith) refl

offerings-join_types_example :
    offerings_at simple_scheduling new_default_provider
      (λ i c z. false)
      "S5"
      (join_types simple_scheduling new_default_provider
        (λ i c z. false)
        (machine_of "S5" 2 ∷ machine_of "S6" 4 ∷ [])
        (machine_of "S5" 2 ∷ [])).offerings_map
    ≡ offered simple_scheduling new_default_provider
        (λ i c z. false)
        Labels.capacity_type_on_demand
        "S5"
        (machine_of "S5" 2 ∷ machine_of "S6" 4 ∷ [])
      ++ offered simple_scheduling new_default_provider
          (λ i c z. false)
          Labels.capacity_type_spot
          "S5"
          (machine_of "S5" 2 ∷ [])
offerings-join_types_example =
    offerings-join_types simple_scheduling new_default_provider (λ i c z. false)
      (machine_of "S5" 2 ∷ machine_of "S6" 4 ∷ []) (machine_of "S5" 2 ∷ []) "S5"
