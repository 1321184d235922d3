-- ===== src/Examples/CloudProviders.antt =====
-- The cloud provider over a cluster of one orphan machine and one ready node class.
use mathlib.Core.List.{Memᴰ}
use karpenter_provider_tke.Prelude.{
  ◌==◌, if◌then◌else◌, ◌*◌, ◌^◌, ◌≡◌, refl, sym, ap, subst, ◌∙◌, lookup, ◌⊎◌, true, false, none,
  some, List, [], ◌∷◌, ok, err, is_ok, not_found, plain, insufficient_capacity, arith, pos, text_at,
}
use karpenter_provider_tke.Labels
use karpenter_provider_tke.Strconv.{atoi}
use karpenter_provider_tke.Kube.{Machine, NodeClaim, Kube, Adds}
use karpenter_provider_tke.Scheduling.{InstanceType}
use karpenter_provider_tke.Zone.{new_default_provider}
use karpenter_provider_tke.NodeClass.{NodeClass, ready}
use karpenter_provider_tke.InstanceType.Level.{decimal}
use karpenter_provider_tke.InstanceType.Blacklist.{is_blocked}
use karpenter_provider_tke.Machines
use karpenter_provider_tke.Machines.{owned_machines, is_owned_by}
use karpenter_provider_tke.GarbageCollection
use karpenter_provider_tke.CloudProvider.Conversion.{Karpenter, Decoders}
use karpenter_provider_tke.CloudProvider.Identity.{is_readable}
use karpenter_provider_tke.CloudProvider.Launch.{
  NodeClaimSpec, failed, Backend, resolve_node_class_from_nodeclaim, resolve_instance_types,
  is_usable, create, list,
}
use karpenter_provider_tke.CloudProvider.Launch.Listing.{ListsAll, list-ListsAll}
use karpenter_provider_tke.CloudProvider.Launch.Refusal.{
  NoneUsable, create-blocks, create-insufficient,
}
use karpenter_provider_tke.CloudProvider.Collection.{
  Creator, IsDistinct, backend, view, DeletesOrphan, collect-DeletesOrphan,
}
use karpenter_provider_tke.Examples.{Req, simple_scheduling, memory_cache}

abbrev orphan : Machine
orphan = record {
  name = "np-7";
  labels =
      (Labels.label_instance_cpu, "4")
      ∷ (Labels.label_instance_memory_gb, "8")
      ∷ (Labels.capacity_type_label_key, "spot")
      ∷ [];
  annotations =
      (Labels.annotation_managed_by, "cls-1")
      ∷ (Labels.annotation_unit_price, "0.5")
      ∷ ("capacity.karpenter.k8s.tke/cpu", "4")
      ∷ ("capacity.karpenter.k8s.tke/memory", "8Gi")
      ∷ [];
  owners = record { kind = "NodeClaim"; name = "gone" } ∷ [];
  created = 0;
  provider_id = some "qcloud:///1/kn-7";
  zone = "ap-guangzhou-3";
  raw_spec = "S5";
  failure_reason = none;
  failure_message = none;
  phase = some "Running";
}

abbrev pub kube : Kube
kube = record {
  list_machines = λ h. ok (orphan ∷ []);
  list_machines_with = λ h key value. ok [];
  list_nodeclaims = λ h. ok [];
  get_nodeclaim = λ h name. err not_found;
  write = λ h w. ok tt;
}

abbrev karpenter : Karpenter simple_scheduling
karpenter = record {
  entries = λ rs. [];
  single = λ r. none;
  fits = λ a b. true;
  allocatable = λ capacity overhead. capacity;
}

abbrev decoders : Decoders
decoders = record {
  instance_type_of = λ raw. ok raw;
  parse_quantity = λ text. if text == "" then none else some (pos 4000);
  parse_price = λ text. some 5;
  above_1_29 = λ m. true;
  fl = decimal;
  vm_memory_overhead = 0;
  quantities = record { parse = λ text. none; max_resources = λ a b. b };
  percentages = record {
    parse_float = λ text. none;
    is_hundred = λ f. false;
    approximate = λ q. 0;
  };
}

abbrev class : NodeClass
class = record {
  name = "default";
  finalizers = [];
  deletion = none;
  subnets = [];
  security_groups = [];
  ssh_keys = [];
  condition = ready;
}

abbrev s5 : InstanceType (List Req)
s5 = record {
  name = "S5";
  requirements = [];
  offerings = record { requirements = []; price = 5; available = true } ∷ [];
  capacity = [];
  overhead = record { kube_reserved = []; system_reserved = []; eviction_threshold = [] };
}

abbrev spec : NodeClaimSpec (List Req)
spec = record { node_class_ref = "default"; requirements = []; requests = [] }

abbrev creator : Creator (List Req)
creator = λ class nc spec its h. (failed orphan "S5" (plain "quota"), h)

abbrev provider : Backend (List Req) memory_cache.C
provider =
    backend simple_scheduling karpenter decoders new_default_provider memory_cache kube creator
      (λ h namespace name. ok class) (λ c now class. ok (s5 ∷ []))

abbrev empty_provider : Backend (List Req) memory_cache.C
empty_provider =
    backend simple_scheduling karpenter decoders new_default_provider memory_cache kube creator
      (λ h namespace name. err not_found) (λ c now class. ok [])

abbrev claim : NodeClaim
claim = record {
  name = "claim";
  kind = "NodeClaim";
  labels = [];
  annotations = [];
  created = 0;
  deletion = none;
  provider_id = "";
  capacity = [];
  allocatable = [];
}

readable_test : is_readable simple_scheduling karpenter decoders new_default_provider orphan ≡ true
unfolding atoi lookup
readable_test = refl

listed : provider.machines.list [] ≡ ok (orphan ∷ [])
unfolding Machines.list owned_machines
listed = refl

list-ListsAll_example :
    ListsAll simple_scheduling karpenter decoders new_default_provider memory_cache provider
      (orphan ∷ [])
      (list simple_scheduling karpenter decoders new_default_provider memory_cache provider 9 [])
list-ListsAll_example =
    list-ListsAll simple_scheduling karpenter decoders new_default_provider memory_cache provider 9
      [] (orphan ∷ []) listed

usable :
    resolve_instance_types simple_scheduling karpenter decoders new_default_provider memory_cache
      provider [] 60 class spec
    ≡ ok (s5 ∷ [])
unfolding resolve_instance_types is_usable
usable = refl

found :
    resolve_node_class_from_nodeclaim simple_scheduling karpenter decoders new_default_provider
      memory_cache provider [] spec
    ≡ ok class
unfolding resolve_node_class_from_nodeclaim
found = refl

create-blocks_example :
    ((create simple_scheduling karpenter decoders new_default_provider memory_cache provider 60 []
        [] claim spec).0
      ≡ err (plain "quota"))
    × ((create simple_scheduling karpenter decoders new_default_provider memory_cache provider 60 []
          [] claim spec).2
        ≡ [])
    × (is_blocked memory_cache
          (create simple_scheduling karpenter decoders new_default_provider memory_cache provider 60
            [] [] claim spec).1
          90
          "S5"
          (text_at Labels.capacity_type_label_key orphan.labels)
          "ap-guangzhou-3"
        ≡ true)
create-blocks_example =
    create-blocks simple_scheduling karpenter decoders new_default_provider memory_cache provider 60
      [] [] [] claim spec class s5 [] orphan "S5" (plain "quota") 90 found refl usable refl
      (omega arith) (omega arith)

no_capacity :
    (create simple_scheduling karpenter decoders new_default_provider memory_cache empty_provider 60
      [] [] claim spec).0
    ≡ err insufficient_capacity
unfolding create resolve_node_class_from_nodeclaim
no_capacity = refl

create-insufficient_example :
    ((create simple_scheduling karpenter decoders new_default_provider memory_cache empty_provider
        60 [] [] claim spec).1
      ≡ [])
    × ((create simple_scheduling karpenter decoders new_default_provider memory_cache empty_provider
          60 [] [] claim spec).2
        ≡ [])
    × ((is_ok (
            resolve_node_class_from_nodeclaim simple_scheduling karpenter decoders
              new_default_provider memory_cache empty_provider [] spec)
          ≡ false)
        ⊎ NoneUsable simple_scheduling karpenter decoders new_default_provider memory_cache
            empty_provider 60 [] [] spec)
create-insufficient_example =
    create-insufficient simple_scheduling karpenter decoders new_default_provider memory_cache
      empty_provider 60 [] [] claim spec (λ class its e. cc) (λ class e. cc) no_capacity

ok-injective {ℓ} : {A : Type ℓ} {a b : A} → ok a ≡ ok b → a ≡ b
ok-injective h = cc

only : (m : Machine) → Memᴰ m (orphan ∷ []) → m ≡ orphan
only m (Memᴰ.head e) = e
only m (Memᴰ.tail later) = elim later [ ]

distinct : IsDistinct (orphan ∷ [])
unfolding is_owned_by
distinct = (
  λ m n here there same given.
      ap (λ (m : Machine). m.name) (only m here)
      ∙ sym (ap (λ (m : Machine). m.name) (only n there)),
  λ m here. subst (λ m. is_owned_by "" m ≡ false) (sym (only m here)) refl,
)

collect-DeletesOrphan_example :
    Adds
      (DeletesOrphan (60 * 10 ^ 9) [] (orphan ∷ []))
      []
      (GarbageCollection.reconcile kube
        (view simple_scheduling karpenter decoders new_default_provider memory_cache kube creator
          (λ h namespace name. ok class)
          (λ c now class. ok (s5 ∷ []))
          (60 * 10 ^ 9))
        (60 * 10 ^ 9)
        0
        []).2
collect-DeletesOrphan_example =
    collect-DeletesOrphan simple_scheduling karpenter decoders new_default_provider memory_cache
      kube creator (λ h namespace name. ok class) (λ c now class. ok (s5 ∷ [])) (60 * 10 ^ 9) 0 []
      (orphan ∷ []) [] refl refl
      (λ h ms m e there. subst (λ ms. Memᴰ m ms) (sym (ok-injective e)) there) distinct
