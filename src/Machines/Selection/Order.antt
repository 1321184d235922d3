-- ===== src/Machines/Selection/Order.antt =====
-- Which instance type Create takes: the first one in the order by price.
use mathlib.Core.List.{Memᴰ}
use karpenter_provider_tke.Prelude.{◌≡◌, String, Bool, false, List, IsOrder, ◌∷◌}
use karpenter_provider_tke.Scheduling.{Scheduling, InstanceType}
use karpenter_provider_tke.Machines.Selection.{Types, is_less}

-- sort.Slice, as documented for a strict order: a rearrangement, in which no later element is less than
-- the first one.
pub record Sorting (A : Type 0) : Type 0 where
  pub sort : (A → A → Bool) → List A → List A
  pub keeps : (less : A → A → Bool) (x : A) (xs : List A) → Memᴰ x xs → Memᴰ x (sort less xs)
  pub least :
      (less : A → A → Bool) (x y : A) (xs rest : List A)
      → IsOrder A less
      → sort less xs ≡ x ∷ rest
      → Memᴰ y rest
      → less y x ≡ false

module _ (s : Scheduling) (sorting : Sorting (InstanceType s.Requirements))
    (before : String → String → Bool) where
  open s use {Requirements}

  -- orderInstanceTypesByPrice
  unfoldable pub order_instance_types_by_price : Requirements → Types s → Types s
  order_instance_types_by_price requirements its = sorting.sort (is_less s before requirements) its
