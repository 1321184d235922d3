-- ===== src/Examples/Statuses.antt =====
-- The status controller at a node class with two subnets, which the cloud lists in either order.
use mathlib.Core.List.{Mem, Memᴰ, mem-cons, not-mem-nil}
use mathlib.Core.List.Perm
use mathlib.Core.Logic.Or
use karpenter_provider_tke.Prelude.{
  ◌≡◌, refl, sym, ap, ◌∙◌, Bool, true, false, none, some, [], ◌∷◌, pos, ok, map,
}
use karpenter_provider_tke.Labels
use karpenter_provider_tke.Zone.{new_default_provider}
use karpenter_provider_tke.NodeClass.{
  VpcSubnet, NodeClass, unknown, Cloud, reconcile_status, contains_finalizer, reconcile_subnets,
  reconcile_security_groups, reconcile_ssh_keys, reconcile_readiness,
}
use karpenter_provider_tke.NodeClass.Status.{
  Server, seconds_of, reconcile, reconcile_stored, errors_of, late_errors, answer_of,
}
use karpenter_provider_tke.NodeClass.Status.Sorting.{IsDocumented, HaveIds, VpcSubnet-set}
use karpenter_provider_tke.NodeClass.Status.Stable.{Answers, answering, reconcile-quiet}
use karpenter_provider_tke.NodeClass.Status.Reports.{
  IsStored, AreListed, IsWritten, reconcile-IsWritten,
}
use karpenter_provider_tke.NodeClass.Cluster.{World, stored, status_run, Steps, here, next, delete}
use karpenter_provider_tke.NodeClass.Cluster.Held.{Steps-keep}
use karpenter_provider_tke.Examples.{differ}
use karpenter_provider_tke.Examples.Orders.{
  text_before, text_before-total, text_before-IsOrder, sorted, sorted-IsSorting,
}

abbrev near : VpcSubnet
near = record {
  subnet_id = "subnet-1";
  zone = "ap-guangzhou-3";
  available_ip_address_count = pos 8;
}

abbrev far : VpcSubnet
far = record {
  subnet_id = "subnet-2";
  zone = "ap-guangzhou-4";
  available_ip_address_count = pos 30;
}

abbrev class : NodeClass
class = record {
  name = "default";
  finalizers = Labels.termination_finalizer ∷ [];
  deletion = none;
  subnets = [];
  security_groups = [];
  ssh_keys = [];
  condition = unknown;
}

abbrev cloud : Cloud
cloud = record {
  zones = new_default_provider;
  list_subnets = λ nc. ok [];
  list_security_groups = λ nc. ok [];
  list_ssh_keys = λ nc. ok [];
  before = text_before;
  sort_subnets = sorted;
  sort_ids = sorted;
}

cloud-IsDocumented : IsDocumented cloud
cloud-IsDocumented = record {
  order = text_before-IsOrder;
  total = text_before-total;
  sorts_subnets = sorted-IsSorting;
  sorts_ids = sorted-IsSorting;
}

abbrev first_answers : Answers
first_answers = record { subnets = near ∷ far ∷ []; groups = "sg-1" ∷ []; keys = [] }

abbrev later_answers : Answers
later_answers = record first_answers { subnets = far ∷ near ∷ [] }

one_of :
    (P : Type 0) (a : VpcSubnet)
    → IsProp P
    → Mem a (near ∷ far ∷ [])
    → (a ≡ near → P)
    → (a ≡ far → P)
    → P
one_of P a prop h left right =
    Or.elim prop (mem-cons.0 h) left
      (λ later. Or.elim prop (mem-cons.0 later) right (λ none_left. absurd (not-mem-nil none_left)))

apart : near.subnet_id ≡ far.subnet_id → ⊥
apart = differ "subnet-1" "subnet-2" refl

distinct : HaveIds (near ∷ far ∷ [])
distinct a b ha hb e =
    one_of (a ≡ b) a (VpcSubnet-set a b) ha
      (λ x.
        one_of (a ≡ b) b (VpcSubnet-set a b) hb (λ y. x ∙ sym y)
          (λ y. absurd (
            apart (
              sym (ap (λ (n : VpcSubnet). n.subnet_id) x)
              ∙ e
              ∙ ap (λ (n : VpcSubnet). n.subnet_id) y))))
      (λ x.
        one_of (a ≡ b) b (VpcSubnet-set a b) hb
          (λ y. absurd (
            apart (
              sym (ap (λ (n : VpcSubnet). n.subnet_id) y)
              ∙ sym e
              ∙ ap (λ (n : VpcSubnet). n.subnet_id) x)))
          (λ y. x ∙ sym y))

abbrev always : NodeClass → NodeClass → Bool
always a b = true

abbrev server : Server
server = record {
  patch = λ old new. ok new;
  status_patch = λ old new. ok tt;
  equal = always;
  min = λ ws. 60;
}

reconcile-quiet_example :
    (reconcile_status (answering cloud later_answers) class
      ≡ reconcile_status (answering cloud first_answers) class)
    × (reconcile
          (answering cloud later_answers)
          server
          (reconcile_status (answering cloud first_answers) class).1
        ≡ (
          (
            server.min (map seconds_of (reconcile_status (answering cloud first_answers) class).0),
            [],
          ),
          [],
        ))
reconcile-quiet_example =
    reconcile-quiet cloud cloud-IsDocumented first_answers later_answers distinct
      (Perm.swap far near []) (Perm.refl _) (Perm.refl _) server class (λ n. refl) refl

abbrev writing : Server
writing = record server { equal = λ a b. false }

reports_nothing : (reconcile (answering cloud first_answers) writing class).0.1 ≡ []
unfolding reconcile reconcile_stored reconcile_status reconcile_subnets reconcile_security_groups
    reconcile_ssh_keys reconcile_readiness errors_of late_errors answer_of
reports_nothing = refl

reconcile-IsWritten_example :
    (stored : NodeClass) × IsStored writing class stored
    × AreListed (answering cloud first_answers) writing stored
    × IsWritten (answering cloud first_answers) writing stored
reconcile-IsWritten_example =
    reconcile-IsWritten (answering cloud first_answers) writing class reports_nothing

-- A NodeClaim uses the class while it is being deleted, and the termination controller runs.
abbrev after_run : NodeClass
after_run = status_run cloud always (λ ws. 60) class

abbrev waiting : World
waiting = record { object = stored (record after_run { deletion = some 5 }); claims = "claim" ∷ [] }

deleted :
    Steps cloud always
      (λ ws. 60)
      "claim"
      (record { object = some after_run; claims = "claim" ∷ [] })
      waiting
deleted = next here (delete after_run 5 ("claim" ∷ []))

Steps-keep_example :
    (later : NodeClass) × (waiting.object ≡ some later) × (contains_finalizer later ≡ true)
Steps-keep_example =
    Steps-keep cloud always (λ ws. 60) "claim" class ("claim" ∷ []) waiting (Memᴰ.head refl) deleted
