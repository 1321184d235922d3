-- ===== src/Zone/RoundTrip.antt =====
-- IDFromZone and ZoneFromID undo one another.
use text.Mathlib.TextLemmas.{cons-append, nil-append}
use karpenter_provider_tke.Prelude.{
  ℕ, ◌+◌, ◌-◌, ◌^◌, ◌≤◌, ◌<◌, String, ◌≡◌, refl, sym, ap, subst, ◌∙◌, Bool, true, false, ◌&&◌, ◌==◌,
  eq_iff, none, some, List, [], ◌∷◌, ◌++◌, all_of, All, arith, leb, eqb, inl, inr, Bool-cases, ok,
  ℤ, pos, ◌-ℤ◌, wrap64_pos, +ℤ_pos, -ℤ_pos, Dict, lookup,
}
use karpenter_provider_tke.Strconv.{◌<>◌, split, split-append, split_lacking, itoa, itoa_ℕ}
use karpenter_provider_tke.Strconv.RoundTrip.{atoi-itoa, itoa_ℕ-Lacks}
use karpenter_provider_tke.Zone.{
  zone_groups, in_group, search_groups, zone_from_id, id_in_region, id_from_parts, id_from_zone,
}
use karpenter_provider_tke.Zone.Order.{IsRegion, zone_groups-IsRegion, in_group_unique}

abbrev pub zone_name : String → ℕ → String
zone_name region k = region <> "-" <> itoa_ℕ k

-- IDFromZone splits the name of a region into two or three parts and joins them again.
abbrev Rejoins : List String → String → Type 0
Rejoins (a ∷ b ∷ []) region = a <> "-" <> b ≡ region
Rejoins (a ∷ b ∷ c ∷ []) region = a <> "-" <> b <> "-" <> c ≡ region
Rejoins _ region = ⊥

abbrev rejoins : List String → String → Bool
rejoins (a ∷ b ∷ []) region = (a <> "-" <> b) == region
rejoins (a ∷ b ∷ c ∷ []) region = (a <> "-" <> b <> "-" <> c) == region
rejoins _ region = false

rejoins→Rejoins :
    (parts : List String) (region : String) → rejoins parts region ≡ true → Rejoins parts region
rejoins→Rejoins [] region h = cc
rejoins→Rejoins (a ∷ []) region h = cc
rejoins→Rejoins (a ∷ b ∷ []) region h = (eq_iff _ _).0 h
rejoins→Rejoins (a ∷ b ∷ c ∷ []) region h = (eq_iff _ _).0 h
rejoins→Rejoins (a ∷ b ∷ c ∷ d ∷ rest) region h = cc

abbrev IsNamed : String × ℕ → Type 0
IsNamed (region, base) =
    Rejoins (split b'-' region) region × (lookup region zone_groups ≡ some base) × (base ≤ 900000)

is_named : String × ℕ → Bool
is_named (region, base) =
    rejoins (split b'-' region) region
    && elim (lookup region zone_groups) [ none ↦ false | some b ↦ eqb b base ]
    && leb base 900000

is_named→IsNamed : (g : String × ℕ) → is_named g ≡ true → IsNamed g
unfolding is_named
is_named→IsNamed (region, base) h =
    (rejoins→Rejoins _ region (ground arith), ground arith, ground arith)

All-IsNamed : (groups : Dict ℕ) → all_of is_named groups ≡ true → All IsNamed groups
All-IsNamed [] h = tt
All-IsNamed (g ∷ groups) h = (is_named→IsNamed g (ground arith), All-IsNamed groups (ground arith))

zone_groups-IsNamed : All IsNamed zone_groups
unfolding is_named split lookup
zone_groups-IsNamed = All-IsNamed zone_groups refl

parts-Rejoins :
    (parts : List String) (region suffix : String)
    → Rejoins parts region
    → id_from_parts zone_groups (parts ++ suffix ∷ []) ≡ id_in_region zone_groups region suffix
unfolding id_from_parts
parts-Rejoins [] region suffix h = absurd h
parts-Rejoins (a ∷ []) region suffix h = absurd h
parts-Rejoins (a ∷ b ∷ []) region suffix h = rw (← h)
parts-Rejoins (a ∷ b ∷ c ∷ []) region suffix h = rw (← h)
parts-Rejoins (a ∷ b ∷ c ∷ d ∷ rest) region suffix h = absurd h

-- The name of a zone is split into the region's parts and the number.
split-zone_name :
    (region : String) (k : ℕ) → split b'-' (zone_name region k) ≡ split b'-' region ++ itoa_ℕ k ∷ []
split-zone_name region k =
    rw (cons-append, nil-append, split-append b'-' "-" region (itoa_ℕ k) refl)
      (ap (λ r. split b'-' region ++ r) (split_lacking b'-' _ (itoa_ℕ-Lacks k)))

id_in_region-IsNamed :
    (region : String) (base k : ℕ)
    → IsNamed (region, base)
    → k ≤ 2 ^ 62
    → id_in_region zone_groups region (itoa_ℕ k) ≡ ok (itoa_ℕ (base + k))
unfolding id_in_region
id_in_region-IsNamed region base k (_, h, small) fits =
    rw (atoi-itoa k (omega arith), h, id_in_region, +ℤ_pos, wrap64_pos (base + k) (omega arith))

id_from_zone-IsNamed :
    (region : String) (base k : ℕ)
    → IsNamed (region, base)
    → k ≤ 2 ^ 62
    → id_from_zone zone_groups (zone_name region k) ≡ ok (itoa_ℕ (base + k))
unfolding id_from_zone
id_from_zone-IsNamed region base k named fits =
    rw (split-zone_name region k, parts-Rejoins _ region (itoa_ℕ k) named.0)
      (id_in_region-IsNamed region base k named fits)

-- A group that holds a number starts below it.
in_group→lt : (n base : ℕ) → in_group (pos n) base ≡ true → (base < n) × (n < base + 1000)
unfolding in_group
in_group→lt n base h = (ground arith, ground arith)

ok-injective : {a b : String} → ok a ≡ ok b → a ≡ b
ok-injective h = cc

zone_name_of : String → ℤ → String
zone_name_of region k = region <> "-" <> itoa k

hit-IsNamed :
    (region : String) (base n : ℕ) (zone : String)
    → IsNamed (region, base)
    → n ≤ 2 ^ 62
    → in_group (pos n) base ≡ true
    → ok (region <> "-" <> itoa (pos n -ℤ pos base)) ≡ ok zone
    → id_from_zone zone_groups zone ≡ ok (itoa_ℕ n)
unfolding zone_name_of
hit-IsNamed region base n zone named fits hit h =
    let (below, _) = in_group→lt n base hit in
    subst (λ z. id_from_zone zone_groups z ≡ ok (itoa_ℕ n))
      (ap (zone_name_of region) (sym (-ℤ_pos n base (omega arith))) ∙ ok-injective h)
      (id_from_zone-IsNamed region base (n - base) named (omega arith)
        ∙ ap (λ m. ok (itoa_ℕ m)) (omega arith))

search-IsNamed :
    (groups : Dict ℕ) (n : ℕ) (zone : String)
    → All IsNamed groups
    → n ≤ 2 ^ 62
    → search_groups groups (pos n) ≡ ok zone
    → id_from_zone zone_groups zone ≡ ok (itoa_ℕ n)
unfolding search_groups
search-IsNamed [] n zone named fits h = cc
search-IsNamed ((region, base) ∷ groups) n zone named fits h =
    elim (Bool-cases (in_group (pos n) base)) [
      | inl hit ↦ hit-IsNamed region base n zone named.0 fits hit (rw hit at h)
      | inr miss ↦ search-IsNamed groups n zone named.1 fits (rw miss at h)
    ]

-- If ZoneFromID gives a name for the decimal text of a number up to 2^62, IDFromZone gives the
-- text back.
pub id_from_zone-zone_from_id :
    (n : ℕ) (zone : String)
    → n ≤ 2 ^ 62
    → zone_from_id zone_groups (itoa_ℕ n) ≡ ok zone
    → id_from_zone zone_groups zone ≡ ok (itoa_ℕ n)
unfolding zone_from_id
id_from_zone-zone_from_id n zone fits h =
    search-IsNamed zone_groups n zone zone_groups-IsNamed fits
      (rw (atoi-itoa n (omega arith), zone_from_id) at h)

lookup-All :
    (P : String × ℕ → Type 0) (region : String) (base : ℕ) (groups : Dict ℕ)
    → All P groups
    → lookup region groups ≡ some base
    → P (region, base)
unfolding lookup
lookup-All P region base [] all h = cc
lookup-All P region base ((r, b) ∷ groups) all h = elim (Bool-cases (r == region)) [
  | inl hit ↦ subst P (entry hit (rw hit at h)) all.0
  | inr miss ↦ lookup-All P region base groups all.1 (rw miss at h)
]
  where
    entry : (r == region) ≡ true → some b ≡ some base → ◌≡◌ {A = String × ℕ} (r, b) (region, base)
    entry hit e = ground (arith, (eq_iff r region).0 hit)

-- The search finds a region of the table whose range holds the number.
search-hit :
    (groups : Dict ℕ) (region : String) (base n : ℕ)
    → All IsRegion groups
    → IsRegion (region, base)
    → lookup region groups ≡ some base
    → in_group (pos n) base ≡ true
    → search_groups groups (pos n) ≡ ok (region <> "-" <> itoa (pos n -ℤ pos base))
unfolding lookup search_groups
search-hit [] region base n all here h hit = cc
search-hit ((r, b) ∷ groups) region base n all here h hit = ground (
  arith,
  eq_iff r region,
  in_group_unique (pos n) b base all.0.0 here.0,
  search-hit groups region base n all.1 here,
  all.0.1,
  here.1,
)

in_group_of_lt : (base k : ℕ) → 0 < k → k < 1000 → in_group (pos (base + k)) base ≡ true
unfolding in_group
in_group_of_lt base k low high = ground arith

-- For every region of the table and every zone number from 1 to 999, IDFromZone gives the region's
-- start plus the number, and ZoneFromID gives the zone's name back.
pub zone_from_id-id_from_zone :
    (region : String) (base k : ℕ)
    → lookup region zone_groups ≡ some base
    → 0 < k
    → k < 1000
    → (id_from_zone zone_groups (zone_name region k) ≡ ok (itoa_ℕ (base + k)))
      × (zone_from_id zone_groups (itoa_ℕ (base + k)) ≡ ok (zone_name region k))
unfolding zone_from_id zone_name_of
zone_from_id-id_from_zone region base k h low high =
    let named = lookup-All IsNamed region base zone_groups zone_groups-IsNamed h in
    let is_region = lookup-All IsRegion region base zone_groups zone_groups-IsRegion h in
    (
      id_from_zone-IsNamed region base k named (omega arith),
      rw (atoi-itoa (base + k) (omega (arith, named.2)), zone_from_id)
          (search-hit zone_groups region base (base + k) zone_groups-IsRegion is_region h
              (in_group_of_lt base k low high)
            ∙ ap (λ m. ok (zone_name_of region m))
                (-ℤ_pos (base + k) base (omega arith) ∙ ap pos (omega arith))),
    )
