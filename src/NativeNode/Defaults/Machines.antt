-- ===== src/NativeNode/Defaults/Machines.antt =====
-- The defaults of machines and machine sets, around those of the provider spec in a raw extension.
use mathlib.Core.Option
use karpenter_provider_tke.Prelude.{
  String, ◌==◌, Bool, ◌&&◌, ◌||◌, Option, none, some, List, if◌then◌else◌, ℤ, pos, Dict, lookup,
  insert, Result, ok, err, relabel,
}
use karpenter_provider_tke.NativeNode.{
  ProviderSpec, prepaid_charge_type, underwrite_charge_type, machine_type_native,
  machine_type_native_cvm, machine_type_cvm,
}
use karpenter_provider_tke.NativeNode.Duplicates.{remove_duplicate}
use karpenter_provider_tke.NativeNode.Defaults.{text_or, no_spec, default_spec}

-- json.Unmarshal into a pointer to a provider spec, which the text `null` sets to nil; json.Marshal
pub record Codec : Type 0 where
  pub decode : String → Result (Option ProviderSpec)
  pub encode : ProviderSpec → Result String

-- ProviderSpec of provider_type.go: the type of a machine and the raw extension
pub record ProviderValue : Type 0 where
  pub type_name : String
  pub value : Option String

-- the fields of MachineSpec that have defaults
pub record MachineTemplate : Type 0 where
  pub annotations : Dict String
  pub runtime_root_dir : String
  pub provider : ProviderValue

-- the fields of Machine that have defaults
pub record NewMachine : Type 0 where
  pub generate_name : String
  pub annotations : Dict String
  pub spec : MachineTemplate

-- the fields of MachineSet that have defaults, and its type
pub record MachineSet : Type 0 where
  pub replicas : Option ℤ
  pub set_type : String
  pub template : MachineTemplate
  pub delete_policy : String
  pub create_policy : Option String
  pub subnet_ids : List String
  pub instance_types : List String

module _ (codec : Codec) where
  -- ProviderSpecFromRawExtension
  unfoldable pub provider_spec_from_raw_extension : Option String → Result (Option ProviderSpec)
  provider_spec_from_raw_extension none = ok (some no_spec)
  provider_spec_from_raw_extension (some raw) =
      relabel "error unmarshalling providerSpec" (codec.decode raw)

  -- RawExtensionFromProviderSpec, of a spec that is not nil
  unfoldable pub raw_extension_from_provider_spec : ProviderSpec → Result String
  raw_extension_from_provider_spec spec =
      relabel "error marshalling providerSpec" (codec.encode spec)

  -- `*value = *newValue`
  abbrev pub assign_value : Option String → String → Option (Option String)
  assign_value none new = none
  assign_value (some old) new = some (some new)

  -- SetDefaults_CXMMachineProviderSpec
  unfoldable pub set_defaults_cxm : Option String → Option (Option String)
  set_defaults_cxm value = elim (provider_spec_from_raw_extension value) [
    | err e ↦ some value
    | ok none ↦ none
    | ok (some spec) ↦ elim (raw_extension_from_provider_spec (default_spec spec)) [
      | err e ↦ some value
      | ok new ↦ assign_value value new
    ]
  ]

  -- the types whose value SetDefaults_ProviderSpec changes
  abbrev pub is_cxm : String → Bool
  is_cxm t = (t == machine_type_native) || (t == machine_type_native_cvm)

  -- SetDefaults_ProviderSpec; SetDefaults_CVMMachineProviderSpec does nothing.
  unfoldable pub set_defaults_provider : ProviderValue → Option ProviderValue
  set_defaults_provider p =
      let type_name = text_or machine_type_native p.type_name in
      if is_cxm type_name
      then Option.map (λ v. record { type_name = type_name; value = v }) (set_defaults_cxm p.value)
      else some (record p { type_name = type_name })

  abbrev pub is_prepaid_or_underwrite : ProviderSpec → Bool
  is_prepaid_or_underwrite spec =
      (spec.instance_charge_type == prepaid_charge_type)
      || (spec.instance_charge_type == underwrite_charge_type)

  -- ScaleDownDisabledAnnotation
  abbrev pub scale_down_disabled_annotation : String
  scale_down_disabled_annotation = "cluster-autoscaler.kubernetes.io/scale-down-disabled"

  abbrev pub default_runtime_root_dir : String → String
  default_runtime_root_dir s = text_or "/var/lib/containerd" s

  -- SetDefaults_MachineSpec
  unfoldable pub set_defaults_machine_spec : MachineTemplate → Option MachineTemplate
  set_defaults_machine_spec m =
      let rooted = record m { runtime_root_dir = default_runtime_root_dir m.runtime_root_dir } in
      elim (provider_spec_from_raw_extension m.provider.value) [
        | err e ↦ some rooted
        | ok none ↦ none
        | ok (some val) ↦
            let annotations =
              if is_prepaid_or_underwrite val
              then insert scale_down_disabled_annotation "true" m.annotations
              else m.annotations in
            Option.map (λ p. record rooted { annotations = annotations; provider = p })
              (set_defaults_provider m.provider)
      ]

  abbrev pub force_delete : String
  force_delete = "node.tke.cloud.tencent.com/force-delete"

  -- the annotation of a NativeCVM machine, where it has none
  unfoldable pub default_force_delete : String → Dict String → Dict String
  default_force_delete type_name annotations =
      if type_name == machine_type_native_cvm
      then (elim (lookup force_delete annotations) [
        | none ↦ insert force_delete "true" annotations
        | some v ↦ annotations
      ])
      else annotations

  -- SetDefaults_Machine
  unfoldable pub set_defaults_machine : NewMachine → Option NewMachine
  set_defaults_machine m =
      Option.map
        (λ s. record {
          generate_name = text_or "mc-" m.generate_name;
          annotations = default_force_delete m.spec.provider.type_name m.annotations;
          spec = s;
        })
        (set_defaults_machine_spec m.spec)

  -- the type of the template's provider spec, by the type of the set
  unfoldable pub type_by_set : String → String → String
  type_by_set set_type t =
      let native = if (set_type == "Native") && (t == "") then machine_type_native else t in
      if (set_type == "Regular") && (native == "") then machine_type_cvm else native

  abbrev pub policy_or_equality : Option String → Option String
  policy_or_equality none = some "ZoneEquality"
  policy_or_equality (some p) = some (text_or "ZoneEquality" p)

  abbrev pub one_if_nil : Option ℤ → Option ℤ
  one_if_nil none = some (pos 1)
  one_if_nil (some n) = some n

  -- the template with the type that its set gives it
  abbrev pub typed_template : MachineSet → MachineTemplate
  typed_template s = record {
    annotations = s.template.annotations;
    runtime_root_dir = s.template.runtime_root_dir;
    provider = record {
      type_name = type_by_set s.set_type s.template.provider.type_name;
      value = s.template.provider.value;
    };
  }

  -- SetDefaults_MachineSet
  unfoldable pub set_defaults_machine_set : MachineSet → Option MachineSet
  set_defaults_machine_set s =
      Option.map
        (λ template. record {
          replicas = one_if_nil s.replicas;
          set_type = s.set_type;
          template = template;
          delete_policy = text_or "Newest" s.delete_policy;
          create_policy = policy_or_equality s.create_policy;
          subnet_ids = remove_duplicate s.subnet_ids;
          instance_types = remove_duplicate s.instance_types;
        })
        (set_defaults_machine_spec (typed_template s))
