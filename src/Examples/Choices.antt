-- ===== src/Examples/Choices.antt =====
-- The theorems on the choice of an instance type, at a dear and a cheap one.
use mathlib.Core.List.{Memᴰ}
use mathlib.Core.Option.{some-injective}
use karpenter_provider_tke.Prelude.{
  IsOrder, ℕ, ◌≤◌, ◌≡◌, ◌≢◌, ◌↔◌, refl, sym, subst, String, Bool, true, false, Option, some, none,
  List, [], ◌∷◌, arith, if◌then◌else◌, leb, Bool-cases, inl, inr, All, All-mono, All, All-mono,
}
use karpenter_provider_tke.Labels
use karpenter_provider_tke.Scheduling.{CheapestLaws, operator_in, Offering, InstanceType}
use karpenter_provider_tke.Machines.Selection.{filter_unwanted_spot}
use karpenter_provider_tke.Machines.Selection.Cheapest.{IsWanted, filter_unwanted_spot-IsWanted}
use karpenter_provider_tke.Machines.Selection.Order.{Sorting}
use karpenter_provider_tke.Examples.{Req, cheaper, cheapest_of, simple_scheduling}

abbrev Offer : Type 0
Offer = Offering (List Req)

cheapest_of-found : (os : List Offer) → os ≢ [] → (o : Offer) × (cheapest_of os ≡ some o)
cheapest_of-found [] h = absurd (h refl)
cheapest_of-found (o ∷ os) h = (cheaper o (cheapest_of os), refl)

cheaper-le : (o : Offer) (r : Option Offer) → (cheaper o r).price ≤ o.price
cheaper-le o none = omega arith
cheaper-le o (some p) = ground arith

cheaper-le_price : (o p : Offer) (r : Option Offer) → r ≡ some p → (cheaper o r).price ≤ p.price
cheaper-le_price o p none e = cc
cheaper-le_price o p (some q) e = rw (some-injective q p e) (ground arith)

cheapest_of-least :
    (os : List Offer) (o p : Offer) → cheapest_of os ≡ some o → Memᴰ p os → o.price ≤ p.price
cheapest_of-least [] o p h here = elim here [ ]
cheapest_of-least (q ∷ os) o p h (Memᴰ.head e) =
    rw (← some-injective _ o h, e) (cheaper-le q (cheapest_of os))
cheapest_of-least (q ∷ []) o p h (Memᴰ.tail later) = elim later [ ]
cheapest_of-least (q ∷ r ∷ rs) o p h (Memᴰ.tail later) =
    let c = cheaper r (cheapest_of rs) in
    let below = cheapest_of-least (r ∷ rs) c p refl later in
    let under = cheaper-le_price q c (some c) refl in
    rw (← some-injective _ o h) (omega (arith, below, under))

cheaper-Mem :
    (o c : Offer) (os : List Offer) (r : Option Offer)
    → ((p : Offer) → r ≡ some p → Memᴰ p os)
    → cheaper o r ≡ c
    → Memᴰ c (o ∷ os)
cheaper-Mem o c os none there e = Memᴰ.head (sym e)
cheaper-Mem o c os (some p) there e = elim (Bool-cases (leb o.price p.price)) [
  | inl low ↦ Memᴰ.head (sym (rw low at e))
  | inr high ↦ Memᴰ.tail (subst (λ x. Memᴰ x os) (rw high at e) (there p refl))
]

cheapest_of-Mem : (os : List Offer) (o : Offer) → cheapest_of os ≡ some o → Memᴰ o os
cheapest_of-Mem [] o h = cc
cheapest_of-Mem (q ∷ os) o h =
    cheaper-Mem q o os (cheapest_of os) (cheapest_of-Mem os) (some-injective _ o h)

laws : CheapestLaws simple_scheduling
laws = record { found = cheapest_of-found; least = cheapest_of-least; member = cheapest_of-Mem }

abbrev offer : ℕ → String → Offer
offer price capacity_type = record {
  requirements = (Labels.capacity_type_label_key, operator_in, capacity_type ∷ []) ∷ [];
  price = price;
  available = true;
}

abbrev machine_type : String → List Offer → InstanceType (List Req)
machine_type name offers = record {
  name = name;
  requirements = [];
  offerings = offers;
  capacity = [];
  overhead = record { kube_reserved = []; system_reserved = []; eviction_threshold = [] };
}

abbrev dear : InstanceType (List Req)
dear = machine_type "S6" (offer 9 "on-demand" ∷ [])

abbrev cheap : InstanceType (List Req)
cheap = machine_type "S5" (offer 7 "on-demand" ∷ offer 2 "spot" ∷ [])

filter_unwanted_spot-IsWanted_example :
    Memᴰ cheap (filter_unwanted_spot simple_scheduling (dear ∷ cheap ∷ []))
    ↔ IsWanted simple_scheduling laws (dear ∷ cheap ∷ []) cheap
filter_unwanted_spot-IsWanted_example =
    filter_unwanted_spot-IsWanted simple_scheduling laws (dear ∷ cheap ∷ []) cheap
      (Memᴰ.tail (Memᴰ.head refl))

-- the least element brought to the front
abbrev place :
    (less : InstanceType (List Req) → InstanceType (List Req) → Bool)
    → InstanceType (List Req)
    → List (InstanceType (List Req))
    → List (InstanceType (List Req))
place less x [] = x ∷ []
place less x (y ∷ ys) = if less y x then y ∷ x ∷ ys else x ∷ y ∷ ys

abbrev to_front :
    (less : InstanceType (List Req) → InstanceType (List Req) → Bool)
    → List (InstanceType (List Req))
    → List (InstanceType (List Req))
to_front less [] = []
to_front less (x ∷ xs) = place less x (to_front less xs)

place-Mem :
    (less : InstanceType (List Req) → InstanceType (List Req) → Bool)
    (z x : InstanceType (List Req)) (ys : List (InstanceType (List Req)))
    → Memᴰ z (x ∷ ys)
    → Memᴰ z (place less x ys)
place-Mem less z x [] h = h
place-Mem less z x (y ∷ ys) h = elim (Bool-cases (less y x)) [
  | inr kept ↦ rw kept h
  | inl swapped ↦ rw swapped (elim h [
    | Memᴰ.head e ↦ Memᴰ.tail (Memᴰ.head e)
    | Memᴰ.tail (Memᴰ.head e) ↦ Memᴰ.head e
    | Memᴰ.tail (Memᴰ.tail later) ↦ Memᴰ.tail (Memᴰ.tail later)
  ])
]

to_front-Mem :
    (less : InstanceType (List Req) → InstanceType (List Req) → Bool) (z : InstanceType (List Req))
    (xs : List (InstanceType (List Req)))
    → Memᴰ z xs
    → Memᴰ z (to_front less xs)
to_front-Mem less z [] h = h
to_front-Mem less z (x ∷ xs) (Memᴰ.head e) = place-Mem less z x (to_front less xs) (Memᴰ.head e)
to_front-Mem less z (x ∷ xs) (Memᴰ.tail later) =
    place-Mem less z x (to_front less xs) (Memᴰ.tail (to_front-Mem less z xs later))

-- nothing behind the first element is less
abbrev Least :
    (InstanceType (List Req) → InstanceType (List Req) → Bool)
    → List (InstanceType (List Req))
    → Type 0
Least less [] = Unit
Least less (x ∷ xs) = All (λ z. less z x ≡ false) xs

place-Least :
    (less : InstanceType (List Req) → InstanceType (List Req) → Bool) (x : InstanceType (List Req))
    (ys : List (InstanceType (List Req)))
    → IsOrder (InstanceType (List Req)) less
    → Least less ys
    → Least less (place less x ys)
place-Least less x [] o h = tt
place-Least less x (y ∷ ys) o h = elim (Bool-cases (less y x)) [
  | inl swapped ↦ rw swapped (o.asym y x swapped, h)
  | inr kept ↦ rw kept (kept, All-mono _ _ ys (λ z low. o.cotrans z y x low kept) h)
]

to_front-Least :
    (less : InstanceType (List Req) → InstanceType (List Req) → Bool)
    (xs : List (InstanceType (List Req)))
    → IsOrder (InstanceType (List Req)) less
    → Least less (to_front less xs)
to_front-Least less [] o = tt
to_front-Least less (x ∷ xs) o = place-Least less x (to_front less xs) o (to_front-Least less xs o)

All-Mem :
    (P : InstanceType (List Req) → Type 0) (y : InstanceType (List Req))
    (xs : List (InstanceType (List Req)))
    → All P xs
    → Memᴰ y xs
    → P y
All-Mem P y [] h here = elim here [ ]
All-Mem P y (x ∷ xs) h (Memᴰ.head e) = subst P (sym e) h.0
All-Mem P y (x ∷ xs) h (Memᴰ.tail later) = All-Mem P y xs h.1 later

pub sorting : Sorting (InstanceType (List Req))
sorting = record {
  sort = to_front;
  keeps = to_front-Mem;
  least = λ less x y xs rest o e here.
      All-Mem _ y rest (subst (Least less) e (to_front-Least less xs o)) here;
}

never : String → String → Bool
never a b = false
