-- ===== src/InstanceType/Query/Zones.antt =====
-- The zones that getInstanceTypes asks for.
use karpenter_provider_tke.Prelude.{
  ◌≡◌, refl, ◌∙◌, arith, String, ◌==◌, eq_iff, Bool, true, false, not, ◌&&◌, ◌||◌, List, [], ◌∷◌,
  ◌++◌, map, if◌then◌else◌, Dict, insert, remove, text_at, any_of,
}
use karpenter_provider_tke.Labels
use karpenter_provider_tke.NodeClass.{NodeClass, Subnet}
use karpenter_provider_tke.InstanceType.Query.{
  Claim, existed_zones, remove_zones, keys_of, zones_of,
}

abbrev pub has : String → List String → Bool
has z [] = false
has z (x ∷ xs) = (x == z) || has z xs

-- The zone of the disks of some NodeClaim of the class is z.
abbrev pub is_used : String → String → List Claim → Bool
is_used class z cs =
    any_of
      (λ (c : Claim).
        (c.node_class_ref == class) && (text_at Labels.label_cbs_toplogy c.labels == z))
      cs

has-append : (z : String) (xs ys : List String) → has z (xs ++ ys) ≡ (has z xs || has z ys)
has-append z [] ys = refl
has-append z (x ∷ xs) ys = ground (arith, has-append z xs ys)

has-insert :
    (z k : String) (v : Bool) (m : Dict Bool)
    → has z (keys_of (insert k v m)) ≡ ((k == z) || has z (keys_of m))
unfolding insert
has-insert z k v [] = refl
has-insert z k v ((j, w) ∷ m) =
    ground (arith, has-insert z k v m, eq_iff j k, eq_iff j z, eq_iff k z)

has-remove :
    (z k : String) (m : Dict Bool)
    → has z (keys_of (remove k m)) ≡ (not (k == z) && has z (keys_of m))
unfolding remove
has-remove z k [] = ground arith
has-remove z k ((j, w) ∷ m) = ground (arith, has-remove z k m, eq_iff j k, eq_iff j z, eq_iff k z)

has-remove_zones :
    (z : String) (ns : List Subnet) (m : Dict Bool)
    → has z (keys_of (remove_zones ns m))
      ≡ (not (has z (map (λ (n : Subnet). n.zone) ns)) && has z (keys_of m))
unfolding remove_zones
has-remove_zones z [] m = ground arith
has-remove_zones z (n ∷ ns) m =
    ground (arith, has-remove_zones z ns (remove n.zone m), has-remove z n.zone m)

has-existed_zones :
    (class z : String) (cs : List Claim) (m : Dict Bool)
    → z == "" ≡ false
    → has z (keys_of (existed_zones class cs m)) ≡ (is_used class z cs || has z (keys_of m))
unfolding existed_zones
has-existed_zones class z [] m named = refl
has-existed_zones class z (c ∷ cs) m named =
    let label : String = text_at Labels.label_cbs_toplogy c.labels in
    let key : String = if c.node_class_ref == class then label else "" in
    ground (
      arith,
      has-existed_zones class z cs (insert key true m) named,
      has-insert z key true m,
      named,
      eq_iff "" z,
      eq_iff z "",
    )

-- getInstanceTypes asks for a zone exactly if a subnet of the node class is in it, or it is not
-- the empty text and a NodeClaim of the node class has it as the zone of its disks.
pub has-zones_of :
    (z : String) (class : NodeClass) (claims : List Claim)
    → has z (zones_of class claims) ≡ (
        has z (map (λ (n : Subnet). n.zone) class.subnets)
        || (not (z == "") && is_used class.name z claims))
unfolding zones_of
has-zones_of z class claims =
    let asked : Dict Bool = existed_zones class.name claims [] in
    let others : Dict Bool = remove_zones class.subnets (remove "" asked) in
    let named : (z == "" ≡ false) → has z (keys_of asked) ≡ (is_used class.name z claims || false) =
      has-existed_zones class.name z claims [] in
    has-append z (map (λ (n : Subnet). n.zone) class.subnets) (keys_of others)
    ∙ ground (
      arith,
      has-remove_zones z class.subnets (remove "" asked),
      has-remove z "" asked,
      named,
      eq_iff "" z,
      eq_iff z "",
    )
