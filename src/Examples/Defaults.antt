-- ===== src/Examples/Defaults.antt =====
-- The defaults of a prepaid machine, with an encoding of the one provider spec that they make, and a
-- rolling upgrade without settings.
use native.Mathlib.Decide.{ℕ_discrete}
use karpenter_provider_tke.Prelude.{
  ◌≡◌, ◌↔◌, refl, sym, ap, subst, ◌∙◌, String, ◌==◌, eq_iff, Bool-cases, lookup, Option, none, some,
  List, [], ◌∷◌, ℤ, pos, if◌then◌else◌, plain, relabel, Result, ok, err, inl, inr, insert,
}
use karpenter_provider_tke.NativeNode.{ProviderSpec, prepaid_charge_type, machine_type_native_cvm}
use karpenter_provider_tke.NativeNode.Defaults.{no_spec, default_spec}
use karpenter_provider_tke.NativeNode.Defaults.Spec.{IsNamed, default_spec_idem}
use karpenter_provider_tke.NativeNode.Defaults.Complete.{IsComplete, default_spec_fixed}
use karpenter_provider_tke.NativeNode.Defaults.Machines.{
  Codec, NewMachine, MachineSet, typed_template, provider_spec_from_raw_extension,
  raw_extension_from_provider_spec, set_defaults_machine_spec, default_force_delete,
  set_defaults_machine, set_defaults_machine_set,
}
use karpenter_provider_tke.NativeNode.Defaults.Value.{RoundTrips, cxm-encoded, provider-cxm}
use karpenter_provider_tke.NativeNode.Defaults.Again.{spec-decoded, set_defaults_machine_idem}
use karpenter_provider_tke.NativeNode.Defaults.Panics.{Panics, set_defaults-Panics}
use karpenter_provider_tke.NativeNode.Upgrades.{
  RollingUpgrade, RollingUpgradeCondition, set_condition, set_defaults_rolling_upgrade,
}
use karpenter_provider_tke.NativeNode.Upgrades.Again.{set_defaults_rolling_upgrade_idem}
use karpenter_provider_tke.NativeNode.Upgrades.Conditions.{
  condition_of, HaveTypes, set_condition-sets,
}

abbrev prepaid_spec : ProviderSpec
prepaid_spec = record no_spec { instance_charge_type = prepaid_charge_type }

default_spec_idem_example :
    (default_spec (default_spec prepaid_spec) ≡ default_spec prepaid_spec)
    ↔ IsNamed prepaid_spec.management.nameservers
default_spec_idem_example = default_spec_idem prepaid_spec

default_spec_fixed_example : (default_spec prepaid_spec ≡ prepaid_spec) ↔ IsComplete prepaid_spec
default_spec_fixed_example = default_spec_fixed prepaid_spec

text_discrete : Discrete String
text_discrete s t = elim (Bool-cases (s == t)) [
  | inl same ↦ yes ((eq_iff s t).0 same)
  | inr apart ↦ no (λ e. cc (sym apart ∙ (eq_iff s t).1 e))
]

ProviderSpec-discrete : Discrete ProviderSpec
ProviderSpec-discrete = hlevel (ℕ_discrete, text_discrete)

-- `in` is the text of the prepaid spec, `out` that of its defaults; no other spec can be encoded.
abbrev texts : String → Result (Option ProviderSpec)
texts raw =
    if raw == "in"
    then ok (some prepaid_spec)
    else if raw == "out"
    then ok (some (default_spec prepaid_spec))
    else err (plain "no such text")

encoded : {spec : ProviderSpec} → Dec (spec ≡ default_spec prepaid_spec) → Result String
encoded (yes same) = ok "out"
encoded (no apart) = err (plain "no text")

abbrev codec : Codec
codec = record {
  decode = texts;
  encode = λ spec. encoded (ProviderSpec-discrete spec (default_spec prepaid_spec));
}

encoded-out :
    (spec : ProviderSpec) (d : Dec (spec ≡ default_spec prepaid_spec)) (raw : String)
    → encoded d ≡ ok raw
    → texts raw ≡ ok (some spec)
unfolding encoded
encoded-out spec (yes same) raw h =
    let out : "out" ≡ raw = cc in
    subst (λ r. texts r ≡ ok (some spec)) out (ap (λ s. ok (some s)) (sym same))
encoded-out spec (no apart) raw h = cc

codec-RoundTrips : RoundTrips codec
codec-RoundTrips spec raw h =
    encoded-out spec (ProviderSpec-discrete spec (default_spec prepaid_spec)) raw h

encoded-yes :
    (d : Dec (default_spec prepaid_spec ≡ default_spec prepaid_spec)) → encoded d ≡ ok "out"
unfolding encoded
encoded-yes (yes same) = refl
encoded-yes (no apart) = absurd (apart refl)

abbrev machine : NewMachine
machine = record {
  generate_name = "";
  annotations = [];
  spec = record {
    annotations = [];
    runtime_root_dir = "";
    provider = record { type_name = machine_type_native_cvm; value = some "in" };
  };
}

abbrev defaulted : NewMachine
defaulted = record {
  generate_name = "mc-";
  annotations = ("node.tke.cloud.tencent.com/force-delete", "true") ∷ [];
  spec = record {
    annotations = ("cluster-autoscaler.kubernetes.io/scale-down-disabled", "true") ∷ [];
    runtime_root_dir = "/var/lib/containerd";
    provider = record { type_name = machine_type_native_cvm; value = some "out" };
  };
}

in_decoded : provider_spec_from_raw_extension codec (some "in") ≡ ok (some prepaid_spec)
unfolding provider_spec_from_raw_extension
in_decoded = refl

out_encoded : raw_extension_from_provider_spec codec (default_spec prepaid_spec) ≡ ok "out"
unfolding raw_extension_from_provider_spec
out_encoded =
    ap (relabel "error marshalling providerSpec")
      (encoded-yes (ProviderSpec-discrete (default_spec prepaid_spec) (default_spec prepaid_spec)))

spec_run : set_defaults_machine_spec codec machine.spec ≡ some defaulted.spec
unfolding insert
spec_run =
    spec-decoded codec codec-RoundTrips machine.spec prepaid_spec defaulted.spec.provider in_decoded
      (provider-cxm codec codec-RoundTrips machine_type_native_cvm (some "in") (some "out") refl
        refl
        (cxm-encoded codec codec-RoundTrips (some "in") prepaid_spec "out" in_decoded out_encoded))

machine_run : set_defaults_machine codec machine ≡ some defaulted
unfolding set_defaults_machine default_force_delete lookup insert
machine_run = rw (set_defaults_machine, spec_run) refl

machine-IsNamed :
    (val : ProviderSpec)
    → provider_spec_from_raw_extension codec (some "in") ≡ ok (some val)
    → IsNamed val.management.nameservers
unfolding provider_spec_from_raw_extension
machine-IsNamed val h =
    let same : prepaid_spec ≡ val = cc in
    subst (λ (s : ProviderSpec). IsNamed s.management.nameservers) same (inl refl)

set_defaults_machine_idem_example : set_defaults_machine codec defaulted ≡ some defaulted
set_defaults_machine_idem_example =
    set_defaults_machine_idem codec codec-RoundTrips machine defaulted machine-IsNamed machine_run

abbrev without_value : NewMachine
without_value = record machine {
  spec = record {
    annotations = [];
    runtime_root_dir = "";
    provider = record { type_name = ""; value = none };
  };
}

abbrev machine_set : MachineSet
machine_set = record {
  replicas = none;
  set_type = "Regular";
  template = without_value.spec;
  delete_policy = "";
  create_policy = none;
  subnet_ids = [];
  instance_types = [];
}

set_defaults-Panics_example :
    ((set_defaults_machine codec without_value ≡ none) ↔ Panics codec without_value.spec)
    × ((set_defaults_machine_set codec machine_set ≡ none)
        ↔ Panics codec (typed_template codec machine_set))
set_defaults-Panics_example = set_defaults-Panics codec without_value machine_set

abbrev upgrade : RollingUpgrade
upgrade = record {
  name = "";
  spec = record {
    machine_set_name = "np-1";
    auto_upgrade = none;
    upgrade_options = record { auto_upgrade_start_time = ""; duration = pos 0; weekly_period = [] };
    components = "OS" ∷ [];
    strategy = record { strategy_type = ""; max_unavailable = none; upgrade_timeout = none };
    desired_kubelet_version = "";
    desired_runtime_version = "";
    ignore_upgrade_failures = none;
  };
  status = record {
    phase = "";
    complete_percentage = "";
    start_time = "";
    end_time = "";
    machines_processed = pos 0;
    total_machines = pos 0;
    total_processing_time = "";
    conditions = [];
  };
}

abbrev zero_seconds : ℤ → String
zero_seconds d = "0s"

set_defaults_rolling_upgrade_idem_example :
    ((set_defaults_rolling_upgrade zero_seconds upgrade).spec.upgrade_options.duration
      ≡ upgrade.spec.upgrade_options.duration)
    × ((set_defaults_rolling_upgrade zero_seconds
            (set_defaults_rolling_upgrade zero_seconds upgrade)
          ≡ set_defaults_rolling_upgrade zero_seconds upgrade)
        ↔ (IsNamed upgrade.spec.upgrade_options.weekly_period × IsNamed upgrade.spec.components))
set_defaults_rolling_upgrade_idem_example =
    set_defaults_rolling_upgrade_idem zero_seconds (λ d. refl) upgrade

abbrev complete : RollingUpgradeCondition
complete = record { condition_type = "Complete"; status = "True" }

abbrev conditions : List RollingUpgradeCondition
conditions = record { condition_type = "Complete"; status = "False" } ∷ []

set_condition-sets_example :
    ((t : String)
      → condition_of t (set_condition complete conditions)
        ≡ (if "Complete" == t then some complete else condition_of t conditions))
    × (HaveTypes conditions → HaveTypes (set_condition complete conditions))
set_condition-sets_example = set_condition-sets complete conditions
