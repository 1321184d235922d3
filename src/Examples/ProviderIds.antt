-- ===== src/Examples/ProviderIds.antt =====
-- The provider ID theorems at a NodeClaim whose machine has started, with writes that are carried out and
-- writes that are refused.
use karpenter_provider_tke.Prelude.{
  ok, err, plain, is_ok, ap, Result, lookup, ◌≡◌, refl, true, some, [], ◌∷◌,
}
use karpenter_provider_tke.Labels
use karpenter_provider_tke.Kube.{
  Write, History, patch_machine_status, patch_nodeclaim_status, create_machine, delete_nodeclaim,
  delete_machine,
}
use karpenter_provider_tke.ProviderId.{
  wants_nodeclaim, wants_machine, patch_nodeclaim, id_or_placeholder, reconcile_nodeclaim,
  reconcile_machine,
}
use karpenter_provider_tke.ProviderId.Cluster.{
  Cluster, Outcomes, server, apply, on_nodeclaim, on_machine, started, Steps, done, then_step,
  IsCoherent,
}
use karpenter_provider_tke.ProviderId.Convergence.{Steps-IsCoherent}
use karpenter_provider_tke.Examples.{differ}
use karpenter_provider_tke.Examples.Controllers.{failed_machine, claim}

abbrev waiting : Cluster
waiting = record {
  claim = claim;
  machine = record failed_machine { labels = (Labels.label_node_claim, "claim") ∷ [] };
}

abbrev running : Cluster
running = record waiting { machine = record waiting.machine { provider_id = some "ins-1" } }

wanted : wants_nodeclaim running.claim ≡ true
unfolding wants_nodeclaim
wanted = refl

-- a server that carries out every write, and one that refuses every write of a machine
abbrev sure : Outcomes
sure = record {
  answer = λ h w. ok tt;
  carries_out = λ h w. true;
  carries_out-ok = λ h w e. refl;
  writes_labels = true;
}

refuse : Write → Result (Unit {0})
refuse (patch_machine_status m) = err (plain "conflict")
refuse (patch_nodeclaim_status nc) = ok tt
refuse (create_machine m spec) = ok tt
refuse (delete_nodeclaim n) = ok tt
refuse (delete_machine n) = ok tt

refuse-carries_out : (h : History) (w : Write) → refuse w ≡ ok tt → is_ok (refuse w) ≡ true
refuse-carries_out h w e = ap is_ok e

abbrev refusing : Outcomes
refusing = record {
  answer = λ h w. refuse w;
  carries_out = λ h w. is_ok (refuse w);
  carries_out-ok = refuse-carries_out;
  writes_labels = true;
}

abbrev identified : Cluster
identified = apply sure (reconcile_nodeclaim (server sure running) running.claim []).1 running

still_wanted : wants_machine identified.machine ≡ true
unfolding wants_machine apply reconcile_nodeclaim patch_nodeclaim lookup id_or_placeholder
still_wanted = refl

steps : Steps waiting (
    apply refusing
      (reconcile_machine (server refusing identified) identified.machine []).1
      identified)
steps =
    then_step waiting identified _
      (then_step waiting running identified
        (then_step waiting waiting running (done waiting)
          (started waiting "ins-1" refl (differ "ins-1" "" refl)))
        (on_nodeclaim running sure wanted))
      (on_machine identified refusing still_wanted)

Steps-IsCoherent_example : IsCoherent (
    apply refusing
      (reconcile_machine (server refusing identified) identified.machine []).1
      identified)
unfolding lookup
Steps-IsCoherent_example = Steps-IsCoherent waiting _ refl refl steps
