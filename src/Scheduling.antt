-- ===== src/Scheduling.antt =====
-- What the program takes from Karpenter's scheduling and cloudprovider packages, and the values that
-- it hands to them. A price is a float64 that is not negative: its bit pattern, which is ordered as
-- the values are. The code only compares prices.
use mathlib.Core.List.{Memᴰ}
use karpenter_provider_tke.Prelude.{
  ℕ, ◌≤◌, ◌≡◌, ◌≢◌, String, Bool, Option, some, List, [], ℤ, pos, ◌*ℤ◌, Dict,
}

-- A resource.Quantity, in thousandths of its unit.
abbrev pub Quantity : Type 0
Quantity = ℤ

-- a quantity of whole units
abbrev pub whole : ℤ → Quantity
whole z = z *ℤ pos 1000

abbrev pub ResourceList : Type 0
ResourceList = Dict Quantity

-- math.MaxFloat64
abbrev pub max_float64 : ℕ
max_float64 = 0x7fefffffffffffff

pub data Operator : Type 0 where
  operator_in does_not_exist : Operator

pub record Offering (R : Type 0) : Type 0 where
  pub requirements : R
  pub price : ℕ
  pub available : Bool

pub record Overhead : Type 0 where
  pub kube_reserved : ResourceList
  pub system_reserved : ResourceList
  pub eviction_threshold : ResourceList

-- cloudprovider.InstanceType
pub record InstanceType (R : Type 0) : Type 0 where
  pub name : String
  pub requirements : R
  pub offerings : List (Offering R)
  pub capacity : ResourceList
  pub overhead : Overhead

-- The operations that the code calls. `compatible` is `Compatible(…) == nil`; `cheapest` is `none`
-- for the nil offering.
pub record Scheduling : Type 1 where
  pub Requirement : Type 0
  pub Requirements : Type 0
  pub new_requirement : String → Operator → List String → Requirement
  pub new_requirements : List Requirement → Requirements
  pub get : Requirements → String → Requirement
  pub has : Requirement → String → Bool
  pub any : Requirement → String
  pub values : Requirement → List String
  pub has_min_values : Requirements → Bool
  pub compatible : Requirements → Requirements → Bool
  pub available : List (Offering Requirements) → List (Offering Requirements)
  pub compatible_offerings :
      List (Offering Requirements) → Requirements → List (Offering Requirements)
  pub cheapest : List (Offering Requirements) → Option (Offering Requirements)

-- Documented behaviour of Cheapest: it is an offering of the list, and none is cheaper.
pub record CheapestLaws (s : Scheduling) : Type 0 where
  pub found :
      (os : List (Offering s.Requirements))
      → os ≢ []
      → (o : Offering s.Requirements) × (s.cheapest os ≡ some o)
  pub least :
      (os : List (Offering s.Requirements)) (o p : Offering s.Requirements)
      → s.cheapest os ≡ some o
      → Memᴰ p os
      → o.price ≤ p.price
  pub member :
      (os : List (Offering s.Requirements)) (o : Offering s.Requirements)
      → s.cheapest os ≡ some o
      → Memᴰ o os
