-- ===== src/Machines/Selection/Cheapest.antt =====
-- Which instance types survive the filter on spot prices, and which one stands first.
use mathlib.Core.List.{Memᴰ}
use karpenter_provider_tke.Prelude.{
  ℕ, ◌≤◌, ◌≡◌, ◌≢◌, refl, sym, ap, subst, ◌↔◌, ◌⊎◌, ◌∙◌, Bool, true, false, ◌&&◌, Option, none,
  some, List, [], ◌∷◌, arith, if◌then◌else◌, ltb, leb, leb→le, keep_if-Mem, Mem-keep_if, is_empty,
  Bool-cases, inl, inr,
}
use karpenter_provider_tke.Scheduling.{
  Scheduling, CheapestLaws, Offering, InstanceType, max_float64,
}
use karpenter_provider_tke.Machines.Selection.{
  Types, is_on_demand, least_on_demand, cheapest_on_demand, is_wanted, filter_unwanted_spot,
}

module _ (s : Scheduling) where
  open s use {Requirements, available, compatible_offerings, cheapest}

  -- an available on-demand offering of some instance type
  abbrev pub OnDemand : Types s → Offering Requirements → Type 0
  OnDemand its o =
      (it : InstanceType Requirements) × Memᴰ it its
      × Memᴰ o (available it.offerings)
      × (is_on_demand s o ≡ true)

  least_on_demand-le :
      (os : List (Offering Requirements)) (price : ℕ) → least_on_demand s os price ≤ price
  unfolding least_on_demand
  least_on_demand-le [] price = omega arith
  least_on_demand-le (o ∷ os) price =
      ground (arith, least_on_demand-le os o.price, least_on_demand-le os price)

  least_on_demand-le_price :
      (os : List (Offering Requirements)) (price : ℕ) (o : Offering Requirements)
      → Memᴰ o os
      → is_on_demand s o ≡ true
      → least_on_demand s os price ≤ o.price
  unfolding least_on_demand
  least_on_demand-le_price [] price o here od = elim here [ ]
  least_on_demand-le_price (p ∷ os) price o (Memᴰ.tail there) od =
      least_on_demand-le_price os _ o there od
  least_on_demand-le_price (p ∷ os) price o (Memᴰ.head e) od =
      let same : is_on_demand s p ≡ true = ap (is_on_demand s) (sym e) ∙ od in
      let cheap : p.price ≡ o.price = ap (λ x. x.price) (sym e) in
      rw same (ground (arith, cheap, least_on_demand-le os p.price, least_on_demand-le os price))

  least_on_demand-reached :
      (os : List (Offering Requirements)) (price : ℕ)
      → (least_on_demand s os price ≡ price)
        ⊎ ((o : Offering Requirements) × Memᴰ o os
            × (is_on_demand s o ≡ true)
            × (least_on_demand s os price ≡ o.price))
  unfolding least_on_demand
  least_on_demand-reached [] price = inl refl
  least_on_demand-reached (p ∷ os) price =
      elim (Bool-cases (is_on_demand s p && ltb p.price price)) [
        | inl lower ↦ elim (least_on_demand-reached os p.price) [
          | inl same ↦ inr (p, Memᴰ.head refl, ground (arith, lower), rw lower same)
          | inr (o, there, od, e) ↦ inr (o, Memᴰ.tail there, od, rw lower e)
        ]
        | inr other ↦ elim (least_on_demand-reached os price) [
          | inl same ↦ inl (rw other same)
          | inr (o, there, od, e) ↦ inr (o, Memᴰ.tail there, od, rw other e)
        ]
      ]

  cheapest_on_demand-le : (its : Types s) (price : ℕ) → cheapest_on_demand s its price ≤ price
  unfolding cheapest_on_demand
  cheapest_on_demand-le [] price = omega arith
  cheapest_on_demand-le (it ∷ its) price = omega (
    arith,
    cheapest_on_demand-le its (least_on_demand s (available it.offerings) price),
    least_on_demand-le (available it.offerings) price,
  )

  cheapest_on_demand-le_price :
      (its : Types s) (price : ℕ) (o : Offering Requirements)
      → OnDemand its o
      → cheapest_on_demand s its price ≤ o.price
  unfolding cheapest_on_demand
  cheapest_on_demand-le_price [] price o (it, here, there, od) = elim here [ ]
  cheapest_on_demand-le_price (jt ∷ its) price o (it, Memᴰ.tail later, there, od) =
      cheapest_on_demand-le_price its _ o (it, later, there, od)
  cheapest_on_demand-le_price (jt ∷ its) price o (it, Memᴰ.head e, there, od) = omega (
    arith,
    cheapest_on_demand-le its (least_on_demand s (available jt.offerings) price),
    least_on_demand-le_price (available jt.offerings) price o
        (subst (λ x. Memᴰ o (available x.offerings)) e there) od,
  )

  cheapest_on_demand-reached :
      (its : Types s) (price : ℕ)
      → (cheapest_on_demand s its price ≡ price)
        ⊎ ((o : Offering Requirements) × OnDemand its o
            × (cheapest_on_demand s its price ≡ o.price))
  unfolding cheapest_on_demand
  cheapest_on_demand-reached [] price = inl refl
  cheapest_on_demand-reached (it ∷ its) price =
      elim (cheapest_on_demand-reached its (least_on_demand s (available it.offerings) price)) [
        | inr (o, (jt, here, there, od), e) ↦ inr (o, (jt, Memᴰ.tail here, there, od), e)
        | inl same ↦ elim (least_on_demand-reached (available it.offerings) price) [
          | inl kept ↦ inl (same ∙ kept)
          | inr (o, there, od, e) ↦ inr (o, (it, Memᴰ.head refl, there, od), same ∙ e)
        ]
      ]

  chosen :
      (none_there : Bool) (found : Option (Offering Requirements)) (price : ℕ)
      → (if none_there then false else (elim found [ none ↦ false | some o ↦ leb o.price price ]))
        ≡ true
      → (o : Offering Requirements) × (found ≡ some o) × (o.price ≤ price)
  chosen true found price h = cc
  chosen false none price h = cc
  chosen false (some o) price h = (o, refl, leb→le o.price price h)

  Mem-nonempty :
      (o : Offering Requirements) (os : List (Offering Requirements))
      → Memᴰ o os
      → (is_empty os ≡ false) × (os ≢ [])
  Mem-nonempty o [] h = elim h [ ]
  Mem-nonempty o (p ∷ os) h = (refl, λ e. cc)

  module _ (laws : CheapestLaws s) where
    -- `it` has an available offering that costs a finite amount, and no more than any available
    -- on-demand offering of `its`.
    abbrev pub IsWanted : Types s → InstanceType Requirements → Type 0
    IsWanted its it =
        (o : Offering Requirements) × Memᴰ o (available it.offerings)
        × (o.price ≤ max_float64)
        × ((p : Offering Requirements) → OnDemand its p → o.price ≤ p.price)

    is_wanted-cheapest :
        (price : ℕ) (it : InstanceType Requirements)
        → is_wanted s price it ≡ true
        → (o : Offering Requirements) × Memᴰ o (available it.offerings) × (o.price ≤ price)
    unfolding is_wanted
    is_wanted-cheapest price it h =
        let (o, e, low) =
          chosen (is_empty (available it.offerings)) (cheapest (available it.offerings)) price h in
        (o, laws.member _ o e, low)

    cheapest-is_wanted :
        (price : ℕ) (it : InstanceType Requirements) (o : Offering Requirements)
        → Memᴰ o (available it.offerings)
        → o.price ≤ price
        → is_wanted s price it ≡ true
    unfolding is_wanted
    cheapest-is_wanted price it o there low =
        let (some_there, not_nil) = Mem-nonempty o (available it.offerings) there in
        let (c, e) = laws.found (available it.offerings) not_nil in
        let least = laws.least (available it.offerings) c o e there in
        rw (is_wanted, some_there, e) (ground arith)

    -- If Cheapest of the scheduling package does as documented, filterUnwantedSpot keeps an
    -- instance type of its list exactly if the type has an available offering that costs at most
    -- the largest float, and no more than any available on-demand offering of the list.
    pub filter_unwanted_spot-IsWanted :
        (its : Types s) (it : InstanceType Requirements)
        → Memᴰ it its
        → Memᴰ it (filter_unwanted_spot s its) ↔ IsWanted its it
    unfolding filter_unwanted_spot
    filter_unwanted_spot-IsWanted its it here = (
      λ kept.
          let (o, there, low) = is_wanted-cheapest _ it (keep_if-Mem _ it its kept).1 in
          (
            o,
            there,
            omega (arith, cheapest_on_demand-le its max_float64),
            λ p od. omega (arith, cheapest_on_demand-le_price its max_float64 p od),
          ),
      λ (o, there, finite, lowest). Mem-keep_if _ it its here (
          cheapest-is_wanted _ it o there (elim (cheapest_on_demand-reached its max_float64) [
            | inl top ↦ rw top finite
            | inr (p, od, e) ↦ rw e (lowest p od)
          ])),
    )
