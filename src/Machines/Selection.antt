-- ===== src/Machines/Selection.antt =====
-- pkg/providers/machine/machine.go: how Create narrows the instance types down and orders them.
pub mod Cheapest
pub mod Order
use karpenter_provider_tke.Prelude.{
  ℕ, String, ◌==◌, Bool, true, false, not, ◌&&◌, ◌||◌, Option, none, some, List, [], ◌∷◌, ◌++◌,
  if◌then◌else◌, ltb, leb, eqb, any_of, keep_if, is_empty,
}
use karpenter_provider_tke.Labels
use karpenter_provider_tke.Scheduling.{Scheduling, Offering, InstanceType, max_float64}

module _ (s : Scheduling) where
  open s use {Requirements, get, has, any, compatible, available, compatible_offerings, cheapest}

  abbrev pub Types : Type 0
  Types = List (InstanceType Requirements)

  abbrev pub capacity_type_of : Offering Requirements → String
  capacity_type_of o = any (get o.requirements Labels.capacity_type_label_key)

  -- the two flags of isMixedCapacityLaunch: an offering that fits and is spot, or is not
  unfoldable pub has_offering : Requirements → (String → Bool) → Types → Bool
  has_offering requirements test its =
      any_of
        (λ (it : InstanceType Requirements).
          any_of
            (λ (o : Offering Requirements).
              compatible requirements o.requirements && test (capacity_type_of o))
            (available it.offerings))
        its

  -- isMixedCapacityLaunch
  unfoldable pub is_mixed_capacity_launch : Requirements → Types → Bool
  is_mixed_capacity_launch requirements its =
      let asked = get requirements Labels.capacity_type_label_key in
      if not (has asked Labels.capacity_type_spot) || not (has asked Labels.capacity_type_on_demand)
      then false
      else has_offering requirements (λ c. c == Labels.capacity_type_spot) its
        && has_offering requirements (λ c. not (c == Labels.capacity_type_spot)) its

  -- filterExoticInstanceTypes: the loop that copies, and the choice of the copy if it is not empty
  abbrev pub copied : Types → Types
  copied [] = []
  copied (it ∷ its) = it ∷ copied its

  unfoldable pub filter_exotic_instance_types : Types → Types
  filter_exotic_instance_types its = if not (is_empty (copied its)) then copied its else its

  abbrev pub is_on_demand : Offering Requirements → Bool
  is_on_demand o = capacity_type_of o == Labels.capacity_type_on_demand

  -- the inner loop of filterUnwantedSpot
  unfoldable pub least_on_demand : List (Offering Requirements) → ℕ → ℕ
  least_on_demand [] price = price
  least_on_demand (o ∷ os) price =
      least_on_demand os (if is_on_demand o && ltb o.price price then o.price else price)

  -- cheapestOnDemand, from the value before the loop on
  unfoldable pub cheapest_on_demand : Types → ℕ → ℕ
  cheapest_on_demand [] price = price
  cheapest_on_demand (it ∷ its) price =
      cheapest_on_demand its (least_on_demand (available it.offerings) price)

  -- the test of the filter: the cheapest available offering is at most the price
  unfoldable pub is_wanted : ℕ → InstanceType Requirements → Bool
  is_wanted price it =
      if is_empty (available it.offerings)
      then false
      else (elim (cheapest (available it.offerings)) [ none ↦ false | some o ↦ leb o.price price ])

  -- filterUnwantedSpot
  unfoldable pub filter_unwanted_spot : Types → Types
  filter_unwanted_spot its = keep_if (is_wanted (cheapest_on_demand its max_float64)) its

  -- filterInstanceTypes
  unfoldable pub filter_instance_types : Requirements → Types → Types
  filter_instance_types requirements its =
      let generic = filter_exotic_instance_types its in
      if is_mixed_capacity_launch requirements generic
      then filter_unwanted_spot generic
      else generic

  -- the price by which orderInstanceTypesByPrice compares
  unfoldable pub price_of : Requirements → InstanceType Requirements → ℕ
  price_of requirements it =
      let os = compatible_offerings (available it.offerings) requirements in
      if is_empty os
      then max_float64
      else (elim (cheapest os) [ none ↦ max_float64 | some o ↦ o.price ])

  -- the `less` of orderInstanceTypesByPrice; `before` compares names
  unfoldable pub is_less :
      (String → String → Bool)
      → Requirements
      → InstanceType Requirements
      → InstanceType Requirements
      → Bool
  is_less before requirements a b =
      if eqb (price_of requirements a) (price_of requirements b)
      then before a.name b.name
      else ltb (price_of requirements a) (price_of requirements b)
