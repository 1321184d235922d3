-- ===== src/Examples/Listings.antt =====
-- Listings of instance types: with an empty cache, for two clusters that the cloud may describe, and again
-- after a listing that has filled the cache.
use karpenter_provider_tke.Prelude.{
  map, not, ◌&&◌, ◌||◌, ℕ, ◌+◌, ◌≤◌, ◌≡◌, refl, ap, ◌∙◌, String, ◌==◌, true, false, Option, none,
  some, List, [], ◌∷◌, arith, if◌then◌else◌, leb, ok, err, plain, pos, Dict, lookup, insert,
  lookup-insert, Result,
}
use karpenter_provider_tke.Zone.{new_default_provider}
use karpenter_provider_tke.Labels
use karpenter_provider_tke.NodeClass.{NodeClass, Subnet, ready}
use karpenter_provider_tke.InstanceType.Query.Zones.{has, is_used, has-zones_of}
use karpenter_provider_tke.InstanceType.Level.{decimal}
use karpenter_provider_tke.InstanceType.New.{Cluster, new_instance_type}
use karpenter_provider_tke.InstanceType.Query.{
  Claim, zones_of, Cloud, items, limits, unreadable, limit_error, get_instance_types, items_of,
  get_eni_limits, add_limits,
}
use karpenter_provider_tke.InstanceType.Capacity.{InstanceTypeQuotaItem}
use karpenter_provider_tke.InstanceType.Offerings.{
  join_types, add_offerings, add_on_demand, add_spot,
}
use karpenter_provider_tke.InstanceType.Overhead.{
  kube_reserved_resources, system_reserved_resources, eviction_threshold,
}
use karpenter_provider_tke.InstanceType.Listing.Repeat.{list-repeats}
use karpenter_provider_tke.InstanceType.Listing.{
  Entry, ProviderCache, Setting, list, version_of, list_cached, cached_types, both_archs,
  list_on_demand, list_typed, cached_limits, list_limited, cluster_info, types_of, new_types,
}
use karpenter_provider_tke.InstanceType.Listing.Forgotten.{describes}
use karpenter_provider_tke.InstanceType.Listing.Kept.{Stores, list-forgets}
use karpenter_provider_tke.Machines.Creation.{NodeClassSpec}
use karpenter_provider_tke.Scheduling.{InstanceType}
use karpenter_provider_tke.Examples.{Req, simple_scheduling}

abbrev Timed : Type 0
Timed = Dict (ℕ × Entry)

abbrev alive : Option (ℕ × Entry) → ℕ → Option Entry
alive none now = none
alive (some (deadline, v)) now = if leb now deadline then some v else none

abbrev get_timed : Timed → ℕ → String → Option Entry
get_timed c now k = alive (lookup k c) now

abbrev put_timed : Timed → ℕ → String → Entry → Timed
put_timed c now k v = insert k (now + 300, v) c

get_timed-put_timed :
    (c : Timed) (now later : ℕ) (k j : String) (v : Entry)
    → now ≤ later
    → get_timed (put_timed c now k v) later j
      ≡ (if k == j then (if leb later (now + 300) then some v else none) else get_timed c later j)
get_timed-put_timed c now later k j v h =
    ap (λ o. alive o later) (lookup-insert k j (now + 300, v) c) ∙ ground arith

get_timed-empty : (now : ℕ) (k : String) → get_timed [] now k ≡ none
unfolding lookup
get_timed-empty now k = refl

abbrev timed_cache : ProviderCache
timed_cache = record {
  C = Timed;
  ttl = 300;
  get = get_timed;
  put = put_timed;
  flush = λ c. [];
  get-put = get_timed-put_timed;
  get-flush = λ c now k. get_timed-empty now k;
}

abbrev setting : Setting
setting = record {
  server_version = ok "v1.30.0";
  above_1_29 = λ v. some true;
  hash_zones = λ class. "0123";
  clean = λ path. path;
  fl = decimal;
  vm_memory_overhead = 0;
  quantities = record { parse = λ text. none; max_resources = λ a b. b };
  percentages = record {
    parse_float = λ text. none;
    is_hundred = λ f. false;
    approximate = λ q. 0;
  };
}

abbrev cloud : Cloud
cloud = record {
  list_claims = λ now. ok [];
  describe_types = λ now query. items [];
  describe_limits = λ now zone. limits [];
}

abbrev class : NodeClass
class = record {
  name = "default";
  finalizers = [];
  deletion = none;
  subnets = record { id = "subnet-1"; zone = "ap-guangzhou-3"; zone_id = "100003" } ∷ [];
  security_groups = [];
  ssh_keys = [];
  condition = ready;
}

abbrev spec : NodeClassSpec
spec = record {
  annotations = [];
  system_disk = none;
  data_disks = [];
  internet_accessible = none;
  lifecycle_script = none;
  tags = [];
}

abbrev small : Cluster
small = record {
  property =
      some (record { network_type = "GR"; vpc_cni_type = ""; has_meta_feature_param = false });
  max_node_pod_num = some 64;
}

abbrev large : Cluster
large = record small { max_node_pod_num = some 256 }

-- a cloud that has one machine, and one that has none and fails
abbrev machine : InstanceTypeQuotaItem
machine = record {
  zone = "ap-guangzhou-3";
  instance_family = "S5";
  instance_type = "S5.MEDIUM4";
  cpu = pos 2;
  memory = pos 4;
  gpu = pos 0;
  inventory = pos 1000;
  status = "SELL";
  unit_price = 20;
  arch = "";
}

abbrev stocked : Cloud
stocked = record {
  list_claims = λ now. ok [];
  describe_types = λ now query. items (if query.arch == "amd64" then machine ∷ [] else []);
  describe_limits = λ now zone. limits [];
}

abbrev failing : Cloud
failing = record {
  list_claims = λ now. err (plain "down");
  describe_types = λ now query. unreadable;
  describe_limits = λ now zone. limit_error "down";
}

abbrev refreshed : Result (List (InstanceType (List Req))) × Timed
refreshed =
    list simple_scheduling new_default_provider (λ i k z. false) timed_cache setting stocked 60
      (describes small []) true class spec []

abbrev refreshed_types : List (InstanceType (List Req))
refreshed_types = elim refreshed.0 [ err e ↦ [] | ok its ↦ its ]

refreshed-ok : refreshed ≡ (ok refreshed_types, refreshed.1)
unfolding list lookup insert version_of list_cached cached_types both_archs get_instance_types
    items_of list_on_demand list_typed cached_limits get_eni_limits add_limits list_limited
    cluster_info types_of new_types new_instance_type join_types add_offerings add_on_demand
    add_spot kube_reserved_resources system_reserved_resources eviction_threshold
refreshed-ok = refl

abbrev again : Cloud → ℕ → Result (List (InstanceType (List Req))) × Timed
again answers now =
    list simple_scheduling new_default_provider (λ i k z. false) timed_cache setting answers now
      (err (plain "down")) false class spec refreshed.1

list-repeats_example :
    (again failing 100 ≡ again stocked 300) × ((again failing 100).1 ≡ refreshed.1)
list-repeats_example =
    list-repeats simple_scheduling new_default_provider (λ i k z. false) timed_cache setting stocked
      failing stocked 60 100 300 (describes small []) (err (plain "down")) (err (plain "down"))
      class spec spec [] refreshed.1 refreshed_types refreshed-ok (omega arith) (omega arith)
      (omega arith) (omega arith)

abbrev listing : Cluster → Result (List (InstanceType (List Req))) × Timed
listing cl =
    list simple_scheduling new_default_provider (λ i k z. false) timed_cache setting stocked 60
      (describes cl []) false class spec []

list-forgets_example :
    ((listing small).0 ≡ (listing large).0) × Stores timed_cache 60 small (listing small)
list-forgets_example =
    list-forgets simple_scheduling new_default_provider (λ i k z. false) timed_cache setting stocked
      60 small large [] [] false class spec [] (get_timed-empty 60 "cluster-info")

-- A NodeClaim of the class whose disks are in another zone, and one of another class.
abbrev claims : List Claim
claims =
    record {
      node_class_ref = "default";
      labels = (Labels.label_cbs_toplogy, "ap-guangzhou-6") ∷ [];
    }
    ∷ record {
      node_class_ref = "other";
      labels = (Labels.label_cbs_toplogy, "ap-guangzhou-7") ∷ [];
    }
    ∷ []

has-zones_of_example : has "ap-guangzhou-6" (zones_of class claims) ≡ (
    has "ap-guangzhou-6" (map (λ (n : Subnet). n.zone) class.subnets)
    || (not ("ap-guangzhou-6" == "") && is_used class.name "ap-guangzhou-6" claims))
has-zones_of_example = has-zones_of "ap-guangzhou-6" class claims
