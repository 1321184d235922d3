-- ===== src/Examples/Zones.antt =====
-- The zone theorems at zones of Guangzhou and Beijing.
use karpenter_provider_tke.Prelude.{◌≡◌, refl, ok, some, lookup, arith, ◌+◌}
use karpenter_provider_tke.Strconv.{itoa_ℕ}
use karpenter_provider_tke.Zone.{zone_groups, zone_from_id, id_from_zone}
use karpenter_provider_tke.Zone.RoundTrip.{
  zone_name, id_from_zone-zone_from_id, zone_from_id-id_from_zone,
}

guangzhou : lookup "ap-guangzhou" zone_groups ≡ some 100000
unfolding lookup
guangzhou = refl

named : zone_from_id zone_groups (itoa_ℕ 100003) ≡ ok "ap-guangzhou-3"
unfolding itoa_ℕ
named = (zone_from_id-id_from_zone "ap-guangzhou" 100000 3 guangzhou (omega arith) (omega arith)).1

id_from_zone-zone_from_id_example : id_from_zone zone_groups "ap-guangzhou-3" ≡ ok (itoa_ℕ 100003)
id_from_zone-zone_from_id_example =
    id_from_zone-zone_from_id 100003 "ap-guangzhou-3" (omega arith) named

beijing : lookup "ap-beijing" zone_groups ≡ some 800000
unfolding lookup
beijing = refl

zone_from_id-id_from_zone_example :
    (id_from_zone zone_groups (zone_name "ap-beijing" 7) ≡ ok (itoa_ℕ (800000 + 7)))
    × (zone_from_id zone_groups (itoa_ℕ (800000 + 7)) ≡ ok (zone_name "ap-beijing" 7))
zone_from_id-id_from_zone_example =
    zone_from_id-id_from_zone "ap-beijing" 800000 7 beijing (omega arith) (omega arith)
