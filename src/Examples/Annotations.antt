-- ===== src/Examples/Annotations.antt =====
-- The round trip of the annotations, with quantities spelled by strokes.
use Prim.Native.Char.{code}
use karpenter_provider_tke.Prelude.{
  ℕ, zero, suc, ◌≡◌, refl, ap, String, Option, none, some, [], ◌∷◌, pos, negsuc, lookup, All,
  if◌then◌else◌, eqb_ℤ, eqb,
}
use karpenter_provider_tke.Labels
use karpenter_provider_tke.Scheduling.{Quantity, ResourceList, Overhead}
use karpenter_provider_tke.Machines.Annotations.{
  quantity_at, resource_annotations, resource_list_from_annotations,
}
use karpenter_provider_tke.Machines.Annotations.RoundTrip.{
  read_capacity, read_capacity-capacity, read_kube_reserved-memory,
}

strokes : ℕ → String
strokes zero = String.[]
strokes (suc n) = String.◌∷◌ "1" (strokes n)

count : String → ℕ
count String.[] = zero
count (String.◌∷◌ c s) = suc (count s)

count-strokes : (n : ℕ) → count (strokes n) ≡ n
unfolding strokes count
count-strokes zero = refl
count-strokes (suc n) = ap suc (count-strokes n)

show : Quantity → String
show (pos n) = String.◌∷◌ "+" (strokes n)
show (negsuc n) = String.◌∷◌ "-" (strokes n)

parse : String → Option Quantity
parse String.[] = none
parse (String.◌∷◌ c s) = if eqb (code c) b'-' then some (negsuc (count s)) else some (pos (count s))

parse-show : (q : Quantity) → parse (show q) ≡ some q
unfolding parse show
parse-show (pos n) = ap (λ m. some (pos m)) (count-strokes n)
parse-show (negsuc n) = ap (λ m. some (negsuc m)) (count-strokes n)

abbrev capacity : ResourceList
capacity = (Labels.resource_cpu, pos 2000) ∷ (Labels.tke_label_eip, pos 1000) ∷ []

abbrev overhead : Overhead
overhead = record {
  kube_reserved = (Labels.resource_memory, pos 5) ∷ (Labels.resource_ephemeral_storage, pos 7) ∷ [];
  system_reserved = [];
  eviction_threshold = [];
}

read_capacity-capacity_example :
    (r : ResourceList) × (read_capacity show parse capacity overhead ≡ some r)
    × All
        (λ name. lookup name r ≡ some (quantity_at name capacity))
        (Labels.resource_cpu ∷ Labels.resource_memory ∷ Labels.resource_pods
          ∷ Labels.resource_ephemeral_storage ∷ [])
    × All
        (λ name. lookup name r ≡ lookup name capacity)
        (Labels.tke_label_eniip ∷ Labels.tke_label_direct_eni ∷ Labels.tke_label_eni
          ∷ Labels.tke_label_sub_eni ∷ Labels.tke_label_eip ∷ Labels.resource_nvidia_gpu ∷ [])
read_capacity-capacity_example = read_capacity-capacity show parse capacity overhead parse-show

read_kube_reserved-memory_example :
    (r : ResourceList) × (resource_list_from_annotations parse Labels.kube_reserved_group
        (resource_annotations show capacity overhead)
      ≡ some r)
    × (lookup Labels.resource_memory r
        ≡ some (
            if eqb_ℤ (quantity_at Labels.resource_ephemeral_storage overhead.kube_reserved) (pos 0)
            then quantity_at Labels.resource_memory overhead.kube_reserved
            else quantity_at Labels.resource_ephemeral_storage overhead.kube_reserved))
read_kube_reserved-memory_example =
    read_kube_reserved-memory show parse capacity overhead parse-show
