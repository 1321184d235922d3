-- ===== src/InstanceType/Capacity/Bounds.antt =====
-- What the capacity of an instance type is bounded by.
use Prim.Native.Nat.{min}
use karpenter_provider_tke.Prelude.{
  ℕ, ◌+◌, ◌*◌, ◌/◌, ◌^◌, ◌<◌, ◌≡◌, arith, ℤ, pos, ◌≤ℤ◌, ◌*ℤ◌, *ℤ_pos, wrap64, wrap64_pos, Option,
}
use karpenter_provider_tke.InstanceType.Capacity.{InstanceTypeQuotaItem, from_ptr, pods, eip}

-- A machine of c cores has min 9 (c / 6 + 1) public addresses.
pub eip-closed_form :
    (item : InstanceTypeQuotaItem) (c : ℕ) → item.cpu ≡ pos c → eip item ≡ pos (min 9 (c / 6 + 1))
unfolding eip
eip-closed_form item c h = rw h (ground arith)

-- The pods of an instance type are at most maxPods if that is positive, at most podsPerCore times
-- the cores if podsPerCore is positive, and at least 61 if neither is, for values that are not
-- negative and a product below 2^63.
pub pods-bounds :
    (item : InstanceTypeQuotaItem) (eni max_pods pods_per_core : Option ℤ) (e m p c : ℕ)
    → item.cpu ≡ pos c
    → from_ptr eni ≡ pos e
    → from_ptr max_pods ≡ pos m
    → from_ptr pods_per_core ≡ pos p
    → p * c < 2 ^ 63
    → (0 < m → pods item eni max_pods pods_per_core ≤ℤ pos m)
      × (0 < p → pods item eni max_pods pods_per_core ≤ℤ pos (p * c))
      × (m ≡ 0 → p ≡ 0 → pos 61 ≤ℤ pods item eni max_pods pods_per_core)
unfolding pods
pods-bounds item eni max_pods pods_per_core e m p c hc he hm hp fits =
    rw (hc, he, hm, hp, product) (ground arith)
  where
    product : wrap64 (pos p *ℤ pos c) ≡ pos (p * c)
    product = rw (*ℤ_pos p c) (wrap64_pos (p * c) (omega arith))
