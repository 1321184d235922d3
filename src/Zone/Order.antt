-- ===== src/Zone/Order.antt =====
-- Go iterates over a map in any order; the regions' ranges are disjoint, so no order shows.
use mathlib.Core.List.{Perm, Permᴰ}
use mathlib.Core.Logic.{∥∥₁_elim}
use text.Mathlib.TextEquality.{IsScalar-prop}
use karpenter_provider_tke.Prelude.{
  ℕ, ◌%◌, String, ◌≡◌, refl, sym, ◌∙◌, Bool, ◌&&◌, ◌==◌, eq_iff, all_of, true, false, Option, none,
  some, [], ◌∷◌, arith, if◌then◌else◌, eqb, Result, ℤ, pos, negsuc, Dict, All, inl, inr,
  Option-cases,
}
use karpenter_provider_tke.Strconv.{atoi}
use karpenter_provider_tke.Zone.{zone_groups, in_group, search_groups, zone_from_id}

-- the region that starts at a number
pub region_at : ℕ → Dict ℕ → Option String
region_at base [] = none
region_at base ((ap, b) ∷ groups) = if eqb b base then some ap else region_at base groups

-- Starts are multiples of 1000, and the table names the region of each.
abbrev pub IsRegion : String × ℕ → Type 0
IsRegion (ap, base) = (base % 1000 ≡ 0) × (region_at base zone_groups ≡ some ap)

is_region : String × ℕ → Bool
is_region (ap, base) =
    eqb (base % 1000) 0
    && elim (region_at base zone_groups) [ none ↦ false | some name ↦ name == ap ]

is_region→IsRegion : (g : String × ℕ) → is_region g ≡ true → IsRegion g
unfolding is_region
is_region→IsRegion (ap, base) h = elim (Option-cases (region_at base zone_groups)) [
  | inl missing ↦ ground (arith, missing)
  | inr (name, e) ↦ ground (arith, eq_iff name ap)
]

All-regions : (groups : Dict ℕ) → all_of is_region groups ≡ true → All IsRegion groups
All-regions [] h = tt
All-regions (g ∷ groups) h =
    (is_region→IsRegion g (ground arith), All-regions groups (ground arith))

pub zone_groups-IsRegion : All IsRegion zone_groups
unfolding is_region region_at
zone_groups-IsRegion = All-regions zone_groups refl

-- Two regions never hold the same number.
pub in_group_unique :
    (id : ℤ) (b c : ℕ)
    → b % 1000 ≡ 0
    → c % 1000 ≡ 0
    → in_group id b ≡ true
    → in_group id c ≡ true
    → b ≡ c
unfolding in_group
in_group_unique (pos n) b c hb hc p q = ground arith
in_group_unique (negsuc n) b c hb hc p q = ground arith

search-swap :
    (x y : String × ℕ) (groups : Dict ℕ) (id : ℤ)
    → IsRegion x
    → IsRegion y
    → search_groups (x ∷ y ∷ groups) id ≡ search_groups (y ∷ x ∷ groups) id
unfolding search_groups
search-swap (a, b) (c, d) groups id (mb, rb) (md, rd) = ground (arith, in_group_unique id b d mb md)

All-permᴰ : (P : String × ℕ → Type 0) {xs ys : Dict ℕ} → Permᴰ xs ys → All P xs → All P ys
All-permᴰ P Permᴰ.nil h = tt
All-permᴰ P (Permᴰ.cons e d) h = (rw e at (h.0), All-permᴰ P d h.1)
All-permᴰ P (Permᴰ.swap e f) h = (rw f at (h.1.0), (rw e at (h.0), h.1.1))
All-permᴰ P (Permᴰ.trans d e) h = All-permᴰ P e (All-permᴰ P d h)

search-cons :
    {x y : String × ℕ} (xs ys : Dict ℕ) (id : ℤ)
    → x ≡ y
    → search_groups xs id ≡ search_groups ys id
    → search_groups (x ∷ xs) id ≡ search_groups (y ∷ ys) id
unfolding search_groups
search-cons {x = (a, b)} xs ys id e h = rw (← e, h)

search-permᴰ :
    {xs ys : Dict ℕ} (id : ℤ)
    → Permᴰ xs ys
    → All IsRegion xs
    → search_groups xs id ≡ search_groups ys id
search-permᴰ id Permᴰ.nil h = refl
search-permᴰ id (Permᴰ.cons {a = x} e d) h = search-cons _ _ id e (search-permᴰ id d h.1)
search-permᴰ id (Permᴰ.swap {a = x} {b = y} {l = l} e f) h =
    rw (← e, ← f) (search-swap x y l id h.0 h.1.0)
search-permᴰ id (Permᴰ.trans d e) h =
    search-permᴰ id d h ∙ search-permᴰ id e (All-permᴰ IsRegion d h)

Result-set : (a b : Result String) → IsProp (a ≡ b)
Result-set = hlevel IsScalar-prop

-- ZoneFromID gives the same result for every order in which the iteration over the map of regions
-- meets them.
pub zone_from_id-perm :
    (order : Dict ℕ) (id : String)
    → Perm zone_groups order
    → zone_from_id order id ≡ zone_from_id zone_groups id
unfolding zone_from_id
zone_from_id-perm order id p = ∥∥₁_elim p (Result-set _ _) λ d. elim (Option-cases (atoi id)) [
  | inl e ↦ rw (e, zone_from_id)
  | inr (num, e) ↦ rw (e, zone_from_id) (sym (search-permᴰ num d zone_groups-IsRegion))
]
