-- ===== src/Examples/Creations.antt =====
-- Create of the machine provider for a NodeClaim with annotations, in a zone with one subnet.
use karpenter_provider_tke.Prelude.{
  ◌≡◌, refl, String, ◌==◌, Bool, true, false, none, List, [], ◌∷◌, ◌++◌, ok, pos, Dict, lookup,
  insert,
}
use karpenter_provider_tke.Labels
use karpenter_provider_tke.Strconv.{split, after_first, cut_prefix, without_spaces, split_two}
use karpenter_provider_tke.Kube.{NodeClaim}
use karpenter_provider_tke.Scheduling.{InstanceType}
use karpenter_provider_tke.NodeClass.{NodeClass, ready}
use karpenter_provider_tke.Machines.Creation.{NodeClassSpec}
use karpenter_provider_tke.Machines.Creation.Arguments.{
  apply_annotations, apply_annotation, apply_host, apply_rest, arguments_with, hosts_with,
  apply_annotations-arguments,
}
use karpenter_provider_tke.Machines.Creation.Disks.{get_target_annotations, add_pairs}
use karpenter_provider_tke.Machines.Creation.Build.{Env, no_settings, create}
use karpenter_provider_tke.Machines.Creation.Placement.{Sends, create-Sends}
use karpenter_provider_tke.Examples.{Req, simple_scheduling}
use karpenter_provider_tke.Examples.Choices.{sorting}
use karpenter_provider_tke.Examples.CloudProviders.{kube}

abbrev annotations : Dict String
annotations =
    ("beta.karpenter.k8s.tke.kubelet.arg/max-pods", "64")
    ∷ ("beta.karpenter.k8s.tke.hosts.ip/10.0.0.1", "a, b")
    ∷ ("beta.karpenter.k8s.tke.hosts.ip/x", "c")
    ∷ []

abbrev nodeclaim : NodeClaim
nodeclaim = record {
  name = "claim";
  kind = "NodeClaim";
  labels = [];
  annotations = annotations;
  created = 0;
  deletion = none;
  provider_id = "";
  capacity = [];
  allocatable = [];
}

abbrev class : NodeClass
class = record {
  name = "default";
  finalizers = [];
  deletion = none;
  subnets = record { id = "subnet-1"; zone = "ap-guangzhou-3"; zone_id = "100003" } ∷ [];
  security_groups = "a" ∷ "b" ∷ "c" ∷ "d" ∷ "e" ∷ "f" ∷ [];
  ssh_keys = [];
  condition = ready;
}

abbrev spec : NodeClassSpec
spec = record {
  annotations = [];
  system_disk = none;
  data_disks =
      record { size = pos 100; disk_type = "CloudSSD"; mount_target = none; file_system = none }
      ∷ [];
  internet_accessible = none;
  lifecycle_script = none;
  tags = [];
}

abbrev s5 : InstanceType (List Req)
s5 = record {
  name = "S5";
  requirements = [];
  offerings = record { requirements = []; price = 5; available = true } ∷ [];
  capacity = [];
  overhead = record { kube_reserved = []; system_reserved = []; eviction_threshold = [] };
}

abbrev is_ip : String → Bool
is_ip t = t == "10.0.0.1"

abbrev env : Env simple_scheduling
env = record {
  truncate = λ requirements n its. ok its;
  zones = record { zone_from_id = λ id. ok "ap-guangzhou-3"; id_from_zone = λ zone. ok "100003" };
  kube = kube;
  new_name = λ h. "np-1";
  new_created = λ h. 0;
  cluster_id = "cls-1";
  encode = λ ps. ok ps.instance_type;
  marshal_tags = λ tags. ok "";
  show_quantity = λ q. "";
  show_price = λ p. "";
  clean = λ path. path;
  is_ip = is_ip;
  before = λ a b. false;
  sorting = sorting;
  unregistered_taint = "karpenter.sh/unregistered:NoExecute";
}

create-Sends_example :
    Sends simple_scheduling env class spec nodeclaim []
      (create simple_scheduling env class spec nodeclaim [] (s5 ∷ []) [])
create-Sends_example = create-Sends simple_scheduling env class spec nodeclaim [] (s5 ∷ []) []

apply_annotations-arguments_example :
    ((apply_annotations is_ip false annotations no_settings).kubelet_args
      ≡ [] ++ arguments_with is_ip false Labels.annotation_kubelet_arg_prefix annotations)
    × ((apply_annotations is_ip false annotations no_settings).kernel_args
        ≡ [] ++ arguments_with is_ip false Labels.annotation_kernel_arg_prefix annotations)
    × ((apply_annotations is_ip false annotations no_settings).hosts
        ≡ [] ++ hosts_with is_ip false annotations)
apply_annotations-arguments_example =
    apply_annotations-arguments is_ip false annotations no_settings

settings_test :
    ((apply_annotations is_ip false annotations no_settings).kubelet_args ≡ "max-pods=64" ∷ [])
    × ((apply_annotations is_ip false annotations no_settings).hosts
        ≡ record { ip = "10.0.0.1"; hostnames = "a" ∷ "b" ∷ [] } ∷ [])
unfolding apply_annotations apply_annotation apply_host apply_rest split after_first cut_prefix
    without_spaces
settings_test = (refl, refl)

target_test :
    get_target_annotations "k" (("k", "a=1,b,c=x=y") ∷ []) ≡ ("a", "1") ∷ ("c", "x=y") ∷ []
unfolding get_target_annotations add_pairs split split_two lookup insert
target_test = refl
