-- ===== src/Zone.antt =====
-- pkg/providers/zone/zone.go: zone names and zone IDs. The map of regions is a list of pairs, in the
-- order in which an iteration over the map meets them.
pub mod Order
pub mod RoundTrip
use karpenter_provider_tke.Prelude.{
  ℕ, ◌+◌, ◌-◌, ◌<◌, String, Bool, ◌&&◌, Option, none, some, List, [], ◌∷◌, ltb, if◌then◌else◌,
  Result, ok, err, plain, ℤ, pos, ◌+ℤ◌, ◌-ℤ◌, ltb_ℤ, wrap64, Dict, lookup,
}
use karpenter_provider_tke.Strconv.{◌<>◌, split, itoa, atoi}

-- zoneGroups
abbrev pub zone_groups : Dict ℕ
zone_groups =
    ("ap-guangzhou", 100000)
    ∷ ("ap-shenzhen-fsi", 110000)
    ∷ ("ap-guangzhou-open", 120000)
    ∷ ("na-siliconvalley", 150000)
    ∷ ("ap-chengdu", 160000)
    ∷ ("eu-frankfurt", 170000)
    ∷ ("ap-seoul", 180000)
    ∷ ("ap-chongqing", 190000)
    ∷ ("ap-shanghai", 200000)
    ∷ ("ap-mumbai", 210000)
    ∷ ("na-ashburn", 220000)
    ∷ ("ap-bangkok", 230000)
    ∷ ("ap-tokyo", 250000)
    ∷ ("ap-hongkong", 300000)
    ∷ ("ap-jinan-ec", 310000)
    ∷ ("ap-hangzhou-ec", 320000)
    ∷ ("ap-nanjing", 330000)
    ∷ ("ap-fuzhou-ec", 340000)
    ∷ ("ap-wuhan-ec", 350000)
    ∷ ("ap-tianjin", 360000)
    ∷ ("ap-shenzhen", 370000)
    ∷ ("ap-taipei", 390000)
    ∷ ("na-toronto", 400000)
    ∷ ("ap-changsha-ec", 450000)
    ∷ ("ap-beijing-fsi", 460000)
    ∷ ("ap-shijiazhuang-ec", 530000)
    ∷ ("ap-qingyuan", 540000)
    ∷ ("ap-hefei-ec", 550000)
    ∷ ("ap-shenyang-ec", 560000)
    ∷ ("ap-xian-ec", 570000)
    ∷ ("ap-xibei-ec", 580000)
    ∷ ("ap-shanghai-fsi", 700000)
    ∷ ("ap-zhengzhou-ec", 710000)
    ∷ ("ap-jakarta", 720000)
    ∷ ("sa-saopaulo", 740000)
    ∷ ("ap-shanghai-adc", 780000)
    ∷ ("ap-beijing", 800000)
    ∷ ("ap-guangzhou-wxzf", 820000)
    ∷ ("ap-shanghai-wxzf", 830000)
    ∷ ("ap-singapore", 900000)
    ∷ []

-- the test in the loop of ZoneFromID
pub in_group : ℤ → ℕ → Bool
in_group id base = ltb_ℤ (pos base) id && ltb_ℤ id (pos (base + 1000))

-- the loop of ZoneFromID, over the map in some order
pub search_groups : Dict ℕ → ℤ → Result String
unfolding in_group
search_groups [] id = err (plain "failed to find zone for id")
search_groups ((ap, base) ∷ groups) id =
    if in_group id base then ok (ap <> "-" <> itoa (id -ℤ pos base)) else search_groups groups id

-- ZoneFromID
unfoldable pub zone_from_id : Dict ℕ → String → Result String
unfolding search_groups
zone_from_id groups id = elim (atoi id) [
  | none ↦ err (plain "failed to convert id")
  | some num ↦ search_groups groups num
]

-- the end of IDFromZone: a region and the text of a number
id_in_region : Dict ℕ → String → String → Result String
id_in_region groups region suffix = elim (atoi suffix) [
  | none ↦ err (plain "invalid zone")
  | some num ↦ elim (lookup region groups) [
    | none ↦ err (plain "failed to find zone")
    | some base ↦ ok (itoa (wrap64 (pos base +ℤ num)))
  ]
]

-- IDFromZone on the parts of the name
id_from_parts : Dict ℕ → List String → Result String
unfolding id_in_region
id_from_parts groups (a ∷ b ∷ c ∷ d ∷ []) = id_in_region groups (a <> "-" <> b <> "-" <> c) d
id_from_parts groups (a ∷ b ∷ c ∷ rest) = id_in_region groups (a <> "-" <> b) c
id_from_parts groups _ = err (plain "invalid zone")

-- IDFromZone
unfoldable pub id_from_zone : Dict ℕ → String → Result String
unfolding id_from_parts
id_from_zone groups zone = id_from_parts groups (split b'-' zone)

-- What the rest of the program uses of a zone provider.
pub record ZoneProvider : Type 0 where
  pub zone_from_id : String → Result String
  pub id_from_zone : String → Result String

-- NewDefaultProvider
abbrev pub new_default_provider : ZoneProvider
new_default_provider = record {
  zone_from_id = zone_from_id zone_groups;
  id_from_zone = id_from_zone zone_groups;
}
