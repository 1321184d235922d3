-- ===== src/Examples/NodeClasses.antt =====
-- The node class theorems at a class with one subnet and one security group.
use mathlib.Core.List.{Memᴰ}
use karpenter_provider_tke.Prelude.{
  false, ◌≡◌, ◌≢◌, refl, String, true, none, some, List, [], ◌∷◌, pos, Result, ok,
}
use karpenter_provider_tke.Labels
use karpenter_provider_tke.Zone.{new_default_provider}
use karpenter_provider_tke.NodeClass.{
  VpcSubnet, NodeClass, unknown, ready, Cloud, reconcile_status, contains_finalizer,
  remove_finalizer, update, finalize, by_deletion, reconcile_termination,
}
use karpenter_provider_tke.NodeClass.Readiness.{reconcile_status-condition}
use karpenter_provider_tke.NodeClass.Finalizer.{reconcile_termination-update}

abbrev subnet : VpcSubnet
subnet = record {
  subnet_id = "subnet-1";
  zone = "ap-guangzhou-3";
  available_ip_address_count = pos 8;
}

abbrev class : NodeClass
class = record {
  name = "default";
  finalizers = Labels.termination_finalizer ∷ [];
  deletion = some 5;
  subnets = [];
  security_groups = [];
  ssh_keys = [];
  condition = unknown;
}

abbrev cloud : Cloud
cloud = record {
  zones = new_default_provider;
  list_subnets = λ nc. ok (subnet ∷ []);
  list_security_groups = λ nc. ok ("sg-1" ∷ []);
  list_ssh_keys = λ nc. ok [];
  before = λ a b. false;
  sort_subnets = λ less ns. ns;
  sort_ids = λ less ids. ids;
}

reconcile_status-condition_example : (reconcile_status cloud class).1.condition ≡ ready
reconcile_status-condition_example =
    reconcile_status-condition cloud class (subnet ∷ []) ("sg-1" ∷ []) [] (λ nc. refl) (λ nc. refl)
      (λ nc. refl) (λ less ns. refl) (λ less ids. refl)

abbrev no_claims : NodeClass → Result (List String)
no_claims nc = ok []

among :
    Memᴰ (update (remove_finalizer class)) (reconcile_termination no_claims (λ nc. ok tt) class).1
unfolding reconcile_termination by_deletion finalize
among = Memᴰ.head refl

reconcile_termination-update_example :
    (class.deletion ≢ none)
    × (contains_finalizer class ≡ true)
    × (no_claims class ≡ ok [])
    × (remove_finalizer class ≡ remove_finalizer class)
reconcile_termination-update_example =
    reconcile_termination-update no_claims (λ nc. ok tt) class (remove_finalizer class) among
