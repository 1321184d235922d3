-- ===== src/Machines/Creation/Build.antt =====
-- Create: the machine that it builds and sends. `err (plain "panic")` stands where the code would read
-- the first of no elements, or a field of the nil offering. Len() > 0 of a requirement is taken for
-- having values, as it is for the operator In.
use karpenter_provider_tke.Prelude.{
  is_some, ℕ, String, ◌==◌, Bool, false, not, Option, none, some, List, [], ◌∷◌, ◌++◌,
  if◌then◌else◌, length, take, ltb, find_first, is_empty, Result, ok, err, plain, ◌>>=◌, relabel,
  Dict, lookup, insert, text_at,
}
use karpenter_provider_tke.Labels
use karpenter_provider_tke.Strconv.{◌<>◌}
use karpenter_provider_tke.Kube.{Machine, NodeClaim, create_machine, History, Kube}
use karpenter_provider_tke.NativeNode.{
  ProviderSpec, MachineSpec, LifecycleConfig, machine_type_native, machine_type_native_cvm,
  spotpaid_charge_type, postpaid_by_hour_charge_type,
}
use karpenter_provider_tke.Scheduling.{Scheduling, Offering, InstanceType, Quantity}
use karpenter_provider_tke.Zone.{ZoneProvider}
use karpenter_provider_tke.NodeClass.{NodeClass, Subnet}
use karpenter_provider_tke.Machines.Annotations.{set_if, set_all, resource_annotations}
use karpenter_provider_tke.Machines.Selection.{Types, filter_instance_types}
use karpenter_provider_tke.Machines.Selection.Order.{Sorting, order_instance_types_by_price}
use karpenter_provider_tke.Machines.Creation.{NodeClassSpec, LifecycleScript}
use karpenter_provider_tke.Machines.Creation.Arguments.{Settings, apply_annotations}
use karpenter_provider_tke.Machines.Creation.Disks.{
  get_target_annotations, system_disk_of, data_disks_of, internet_of, or_text,
}
use karpenter_provider_tke.CloudProvider.Launch.{Creation, refused, failed, created}

-- What Create calls: Truncate of Karpenter, the zones, the API server with the name and the creation
-- time that it gives, the cluster ID, RawExtensionFromProviderSpec, json.Marshal of the tags, String() of a quantity, the
-- print of a price, path.Clean, the test of net.ParseIP, the comparison of names and sort.Slice, and
-- the text of Karpenter's taint.
pub record Env (s : Scheduling) : Type 1 where
  pub truncate : s.Requirements → ℕ → Types s → Result (Types s)
  pub zones : ZoneProvider
  pub kube : Kube
  pub new_name : History → String
  pub new_created : History → ℕ
  pub cluster_id : String
  pub encode : ProviderSpec → Result String
  pub marshal_tags : Dict String → Result String
  pub show_quantity : Quantity → String
  pub show_price : ℕ → String
  pub clean : String → String
  pub is_ip : String → Bool
  pub before : String → String → Bool
  pub sorting : Sorting (InstanceType s.Requirements)
  pub unregistered_taint : String

abbrev pub first_of {ℓ} : {A : Type ℓ} → List A → Result A
first_of [] = err (plain "panic")
first_of (a ∷ rest) = ok a

abbrev pub head_of : List String → Option String
head_of [] = none
head_of (v ∷ vs) = some v

-- the test of the empty list of instance types
abbrev pub some_types {ℓ} : {A : Type ℓ} → List A → Result (List A)
some_types [] = err (plain "no instance types available")
some_types (it ∷ its) = ok (it ∷ its)

abbrev pub or_panic {ℓ} : {A : Type ℓ} → Option A → Result A
or_panic none = err (plain "panic")
or_panic (some a) = ok a

-- the ID of the first subnet of the zone, empty without one
unfoldable pub subnet_in : String → List Subnet → String
subnet_in zone subnets = elim (find_first (λ (n : Subnet). n.zone == zone) subnets) [
  | none ↦ ""
  | some n ↦ n.id
]

abbrev pub subnet_or_error : String → String → Result String
subnet_or_error zone id =
    if id == "" then err (plain ("subnet for " <> zone <> " not found")) else ok id

-- what the annotation loop starts from
abbrev pub no_settings : Settings
no_settings = record {
  kubelet_args = [];
  kernel_args = [];
  hosts = [];
  nameservers = [];
  host_name = "";
  runtime_root_dir = "";
  gpu_config = record { driver = ""; cuda = ""; cudnn = ""; mig_enable = false; fabric = false };
}

abbrev lifecycle_of : Option LifecycleScript → LifecycleConfig
lifecycle_of none = record { pre_init = ""; post_init = "" }
lifecycle_of (some l) = record {
  pre_init = or_text "" l.pre_init_script;
  post_init = or_text "" l.post_init_script;
}

-- at most five security groups
abbrev pub five_of : List String → List String
five_of ids = if ltb 5 (length ids) then take 5 ids else ids

-- the assignments of one map to another
unfoldable pub assign_all : Dict String → Dict String → Dict String
assign_all [] m = m
assign_all ((k, v) ∷ es) m = assign_all es (insert k v m)

-- the annotation with the tags of the node class, which is set where there are tags
abbrev pub tags_of : (Dict String → Result String) → Dict String → Result (Option String)
tags_of marshal [] = ok none
tags_of marshal (t ∷ ts) = elim (marshal (t ∷ ts)) [ err e ↦ err e | ok text ↦ ok (some text) ]

-- capiv1beta1.AnnotationMachineCloudTag
abbrev pub annotation_machine_cloud_tag : String
annotation_machine_cloud_tag = "node.tke.cloud.tencent.com/machine-cloud-tags"

module _ (s : Scheduling) (env : Env s) where
  open s use {
    Requirements, get, any, values, has_min_values, available, compatible_offerings, cheapest,
  }

  -- the instance type: the first one by price, of those that are left
  unfoldable pub choose : Requirements → Types s → Result (InstanceType Requirements)
  choose requirements its = do
    truncated ← env.truncate requirements 60 (
        if not (has_min_values requirements) then filter_instance_types s requirements its else its)
    usable ← some_types truncated
    first_of (order_instance_types_by_price s env.sorting env.before requirements usable)

  unfoldable pub labels_of :
      NodeClass → NodeClaim → InstanceType Requirements → Offering Requirements → Dict String
  labels_of class nc it o =
      let named : String → String × Option String =
        λ (key : String). (key, head_of (values (get it.requirements key))) in
      let capacity_type = get o.requirements Labels.capacity_type_label_key in
      set_all
        (named Labels.label_instance_family
          ∷ named Labels.label_instance_cpu
          ∷ named Labels.label_instance_memory_gb
          ∷ named Labels.label_arch_stable
          ∷ (
            Labels.capacity_type_label_key,
            if is_empty (values capacity_type) then none else some (any capacity_type),
          )
          ∷ [])
        ((Labels.node_pool_label_key, text_at Labels.node_pool_label_key nc.labels)
          ∷ (Labels.label_node_claim, nc.name)
          ∷ (Labels.label_node_class, class.name)
          ∷ [])

  abbrev pub is_spot : Dict String → Bool
  is_spot labels = text_at Labels.capacity_type_label_key labels == Labels.capacity_type_spot

  abbrev pub settings_of : NodeClaim → InstanceType Requirements → Settings
  settings_of nc it =
      apply_annotations env.is_ip (is_some (lookup Labels.resource_nvidia_gpu it.capacity))
        nc.annotations no_settings

  unfoldable pub provider_spec_of :
      NodeClass → NodeClassSpec → NodeClaim → InstanceType Requirements → Dict String → ProviderSpec
  provider_spec_of class spec nc it labels =
      let st = settings_of nc it in
      record {
        lifecycle = lifecycle_of spec.lifecycle_script;
        management = record {
          nameservers = st.nameservers;
          hosts = st.hosts;
          kernel_args = st.kernel_args;
          kubelet_args =
              st.kubelet_args ++ ("register-with-taints=" <> env.unregistered_taint) ∷ [];
        };
        instance_type = it.name;
        instance_charge_type =
            if is_spot labels then spotpaid_charge_type else postpaid_by_hour_charge_type;
        instance_charge_prepaid = none;
        security_group_ids = five_of class.security_groups;
        system_disk = system_disk_of spec;
        data_disks = data_disks_of env.clean spec 0 spec.data_disks;
        key_ids = class.ssh_keys;
        internet_accessible = internet_of (is_spot labels) spec.internet_accessible;
        host_name = st.host_name;
        hpc_cluster_id = "";
      }

  -- the annotations of the machine; those that the NodeClaim asks for come last.
  unfoldable pub annotations_of :
      NodeClaim → InstanceType Requirements → ℕ → Option String → Dict String
  annotations_of nc it price tags =
      assign_all
        (get_target_annotations Labels.annotation_machine_meta_annotations_key nc.annotations)
        (set_if annotation_machine_cloud_tag tags (
          insert Labels.annotation_managed_by env.cluster_id (
            insert Labels.annotation_unit_price (env.show_price price)
              (resource_annotations env.show_quantity it.capacity it.overhead))))

  unfoldable pub machine_of :
      History → NodeClaim → String → Dict String → Dict String → String → Machine
  machine_of h nc zone labels annotations raw = record {
    name = env.new_name h;
    labels = labels;
    annotations = annotations;
    owners = record { kind = nc.kind; name = nc.name } ∷ [];
    created = env.new_created h;
    provider_id = none;
    zone = zone;
    raw_spec = raw;
    failure_reason = none;
    failure_message = none;
    phase = none;
  }

  unfoldable pub machine_spec_of :
      NodeClaim → InstanceType Requirements → String → Dict String → MachineSpec
  machine_spec_of nc it subnet labels =
      let st = settings_of nc it in
      record {
        annotations =
            get_target_annotations Labels.annotation_machine_spec_annotations_key nc.annotations;
        display_name = nc.name;
        subnet_id = subnet;
        runtime_root_dir = st.runtime_root_dir;
        gpu_config = st.gpu_config;
        provider_type = if is_spot labels then machine_type_native_cvm else machine_type_native;
      }

  -- What Create sends: the machine, the rest of its spec, and the provider spec.
  abbrev pub Plan : Type 0
  Plan = Machine × MachineSpec × ProviderSpec

  unfoldable pub plan :
      History → NodeClass → NodeClassSpec → NodeClaim → Requirements → Types s → Result Plan
  plan h class spec nc requirements its = do
    it ← choose requirements its
    o ← or_panic (cheapest (compatible_offerings (available it.offerings) requirements))
    zone ←
        relabel "getting zone failed: "
          (env.zones.zone_from_id (any (get o.requirements Labels.label_topology_zone)))
    subnet ← subnet_or_error zone (subnet_in zone class.subnets)
    let labels = labels_of class nc it o
    let provider_spec = provider_spec_of class spec nc it labels
    raw ← env.encode provider_spec
    tags ← tags_of env.marshal_tags spec.tags
    ok (
      machine_of h nc zone labels (annotations_of nc it o.price tags) raw,
      machine_spec_of nc it subnet labels,
      provider_spec,
    )

  unfoldable pub send_plan : History → Result Plan → Creation × History
  send_plan h (err e) = (refused e, h)
  send_plan h (ok (m, ms, ps)) = elim (env.kube.write h (create_machine m ms)) [
    | err e ↦ (failed m ps.instance_type e, create_machine m ms ∷ h)
    | ok u ↦ (created m ps.instance_type, create_machine m ms ∷ h)
  ]

  -- Create
  unfoldable pub create :
      NodeClass → NodeClassSpec → NodeClaim → Requirements → Types s → History → Creation × History
  create class spec nc requirements its h = send_plan h (plan h class spec nc requirements its)
