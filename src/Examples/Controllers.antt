-- ===== src/Examples/Controllers.antt =====
-- The theorems of the failure controller, the machine provider and the garbage collector at a cluster of
-- one failed machine.
use mathlib.Core.List.{Memᴰ}
use karpenter_provider_tke.Prelude.{
  ℕ, ◌+◌, ◌*◌, ◌^◌, ◌≡◌, refl, inr, true, false, none, some, [], ◌∷◌, ok, arith, if◌then◌else◌, leb,
  text_at, find_first,
}
use karpenter_provider_tke.Labels
use karpenter_provider_tke.Kube.{OwnerReference, Machine, NodeClaim, Kube, Adds}
use karpenter_provider_tke.InstanceType.Blacklist.{is_blocked}
use karpenter_provider_tke.Failure.{
  Env, State, is_stuck, is_failure_with_insufficient_resources, lacks_resources,
  unknown_failure_machines, reconcile,
}
use karpenter_provider_tke.Failure.Safety.{Justified, reconcile-Justified}
use karpenter_provider_tke.Failure.Progress.{IsDeleted, reconcile-deletes}
use karpenter_provider_tke.Failure.Blocks.{refreshed, reconcile-blocks}
use karpenter_provider_tke.Machines.{delete}
use karpenter_provider_tke.Machines.Deletion.{names, deletion, delete-deletion}
use karpenter_provider_tke.GarbageCollection.{CloudProvider}
use karpenter_provider_tke.GarbageCollection
use karpenter_provider_tke.GarbageCollection.Safety.{Collects, reconcile-Collects}
use karpenter_provider_tke.Examples.{memory_cache}

abbrev pub claim_owner : OwnerReference
claim_owner = record { kind = "NodeClaim"; name = "claim" }

abbrev pub failed_machine : Machine
failed_machine = record {
  name = "np-1";
  labels = ("karpenter.sh/capacity-type", "spot") ∷ [];
  annotations = [];
  owners = claim_owner ∷ [];
  created = 0;
  provider_id = none;
  zone = "ap-guangzhou-3";
  raw_spec = "S5";
  failure_reason = some "CreateError";
  failure_message = some "no address";
  phase = none;
}

abbrev pub claim : NodeClaim
claim = record {
  name = "claim";
  kind = "NodeClaim";
  labels = [];
  annotations = [];
  created = 0;
  deletion = none;
  provider_id = "";
  capacity = [];
  allocatable = [];
}

abbrev one_machine : Kube
one_machine = record {
  list_machines = λ h. ok (failed_machine ∷ []);
  list_machines_with = λ h key value. ok (failed_machine ∷ []);
  list_nodeclaims = λ h. ok (claim ∷ []);
  get_nodeclaim = λ h name. ok claim;
  write = λ h w. ok tt;
}

abbrev env : Env
env = record {
  kube = one_machine;
  instance_type_of = λ r. ok r;
  has_nodeclass = λ n. true;
  lists = λ n. true;
}

abbrev now : ℕ
now = 60 * 10 ^ 9

abbrev start : State memory_cache env now
start = record { blacklist = []; successful_count = 0; history = [] }

stuck : is_stuck now failed_machine ≡ true
unfolding is_stuck
stuck = refl

unknown :
    is_failure_with_insufficient_resources memory_cache env now
      (refreshed memory_cache env now start (failed_machine ∷ []))
      failed_machine
    ≡ false
unfolding is_failure_with_insufficient_resources lacks_resources
unknown = refl

reconcile-Justified_example :
    Adds (Justified now (failed_machine ∷ [])) [] (reconcile memory_cache env now start).1.history
reconcile-Justified_example =
    reconcile-Justified memory_cache env now start (failed_machine ∷ []) refl

reconcile-blocks_example :
    is_blocked memory_cache
      (reconcile memory_cache env now start).1.blacklist
      now
      "S5"
      (text_at Labels.capacity_type_label_key failed_machine.labels)
      "ap-guangzhou-3"
    ≡ true
reconcile-blocks_example =
    reconcile-blocks memory_cache env now start (failed_machine ∷ []) failed_machine "S5" now refl
      (Memᴰ.head refl) stuck refl unknown refl (omega arith) (omega arith)

unknown_listed : Memᴰ failed_machine (
    unknown_failure_machines memory_cache env now
      (refreshed memory_cache env now start (failed_machine ∷ []))
      (failed_machine ∷ []))
unfolding unknown_failure_machines is_stuck is_failure_with_insufficient_resources lacks_resources
unknown_listed = Memᴰ.head refl

reconcile-deletes_example :
    IsDeleted memory_cache env now failed_machine claim_owner
      (reconcile memory_cache env now start).1.history
    × ((reconcile memory_cache env now start).0 ≡ ok (if leb (0 + 1) 20 then 10 else 60))
reconcile-deletes_example =
    reconcile-deletes memory_cache env now start (failed_machine ∷ []) failed_machine claim_owner []
      refl (λ h w. refl) (inr unknown_listed) refl refl

delete-deletion_example :
    delete one_machine claim []
    ≡ deletion one_machine claim
        (failed_machine ∷ [])
        (find_first (names claim) (failed_machine ∷ []))
        []
delete-deletion_example = delete-deletion one_machine claim (failed_machine ∷ []) [] refl

abbrev orphan : NodeClaim
orphan = record claim {
  annotations =
      (Labels.annotation_managed_by, "cls-1") ∷ (Labels.annotation_owned_machine, "np-1") ∷ [];
}

abbrev cloud : CloudProvider
cloud = record { list = λ h. ok (orphan ∷ []); delete = λ nc h. (ok tt, h) }

reconcile-Collects_example :
    Adds
      (Collects one_machine cloud (λ nc w. ⊥) now (orphan ∷ []) (claim ∷ []))
      []
      (GarbageCollection.reconcile one_machine cloud now 0 []).2
reconcile-Collects_example =
    reconcile-Collects one_machine cloud (λ nc w. ⊥) now 0 [] (orphan ∷ []) (claim ∷ [])
      (failed_machine ∷ []) (λ nc h. ([], refl, tt)) refl refl refl
