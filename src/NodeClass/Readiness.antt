-- ===== src/NodeClass/Readiness.antt =====
-- When a node class is ready.
use karpenter_provider_tke.Prelude.{
  Bool, ◌≡◌, refl, ap, ap₂, ◌∙◌, String, List, [], ◌∷◌, map, is_empty, ok, if◌then◌else◌,
}
use karpenter_provider_tke.NodeClass.{
  VpcSubnet, NodeClass, ready, not_ready, Cloud, to_status, is_before, reconcile_subnets,
  reconcile_security_groups, reconcile_ssh_keys, reconcile_readiness, reconcile_status,
  condition_of,
}

module _ (cloud : Cloud) where
  is_empty-map : (ns : List VpcSubnet) → is_empty (map (to_status cloud) ns) ≡ is_empty ns
  is_empty-map [] = refl
  is_empty-map (n ∷ ns) = refl

  subnets_found :
      (nc : NodeClass) (ns : List VpcSubnet)
      → cloud.list_subnets nc ≡ ok ns
      → ((less : VpcSubnet → VpcSubnet → Bool) (ns : List VpcSubnet)
          → is_empty (cloud.sort_subnets less ns) ≡ is_empty ns)
      → is_empty (reconcile_subnets cloud nc).1.subnets ≡ is_empty ns
  unfolding reconcile_subnets
  subnets_found nc [] e keeps = rw (e, reconcile_subnets) refl
  subnets_found nc (n ∷ ns) e keeps =
      rw (e, reconcile_subnets)
        (is_empty-map (cloud.sort_subnets (is_before cloud.before) (n ∷ ns)) ∙ keeps _ (n ∷ ns))

  groups_found :
      (nc : NodeClass) (gs : List String)
      → cloud.list_security_groups nc ≡ ok gs
      → ((less : String → String → Bool) (ids : List String)
          → is_empty (cloud.sort_ids less ids) ≡ is_empty ids)
      → ((reconcile_security_groups cloud nc).1.subnets ≡ nc.subnets)
        × (is_empty (reconcile_security_groups cloud nc).1.security_groups ≡ is_empty gs)
  unfolding reconcile_security_groups
  groups_found nc [] e keeps = rw (e, reconcile_security_groups) (refl, refl)
  groups_found nc (g ∷ gs) e keeps = rw (e, reconcile_security_groups) (refl, keeps _ (g ∷ gs))

  keys_found :
      (nc : NodeClass) (keys : List String)
      → cloud.list_ssh_keys nc ≡ ok keys
      → ((reconcile_ssh_keys cloud nc).1.subnets ≡ nc.subnets)
        × ((reconcile_ssh_keys cloud nc).1.security_groups ≡ nc.security_groups)
  unfolding reconcile_ssh_keys
  keys_found nc [] e = rw (e, reconcile_ssh_keys) (refl, refl)
  keys_found nc (k ∷ keys) e = rw (e, reconcile_ssh_keys) (refl, refl)

  -- If the three lists of the cloud can be read and do not depend on the status, and sorting keeps
  -- an empty list empty and no other, the node class is ready after the four status reconcilers
  -- exactly if the cloud has subnets and security groups for it; otherwise the condition names the
  -- first of the two that is missing.
  pub reconcile_status-condition :
      (nc : NodeClass) (ns : List VpcSubnet) (gs keys : List String)
      → ((nc : NodeClass) → cloud.list_subnets nc ≡ ok ns)
      → ((nc : NodeClass) → cloud.list_security_groups nc ≡ ok gs)
      → ((nc : NodeClass) → cloud.list_ssh_keys nc ≡ ok keys)
      → ((less : VpcSubnet → VpcSubnet → Bool) (ns : List VpcSubnet)
          → is_empty (cloud.sort_subnets less ns) ≡ is_empty ns)
      → ((less : String → String → Bool) (ids : List String)
          → is_empty (cloud.sort_ids less ids) ≡ is_empty ids)
      → (reconcile_status cloud nc).1.condition ≡ (
          if is_empty ns
          then not_ready "Failed to resolve subnets"
          else if is_empty gs
          then not_ready "Failed to resolve security groups"
          else ready)
  unfolding reconcile_status reconcile_readiness condition_of
  reconcile_status-condition nc ns gs keys n g k sn si =
      let a = subnets_found nc ns (n nc) sn in
      let b = groups_found (reconcile_subnets cloud nc).1 gs (g _) si in
      let c =
        keys_found (reconcile_security_groups cloud (reconcile_subnets cloud nc).1).1 keys (k _) in
      ap₂
        (λ x y.
          if x
          then not_ready "Failed to resolve subnets"
          else if y
          then not_ready "Failed to resolve security groups"
          else ready)
        (ap is_empty (c.0 ∙ b.0) ∙ a) (ap is_empty c.1 ∙ b.1)
