-- ===== src/NativeNode/Upgrades.antt =====
-- staging/nativenode/v1beta1: the rolling upgrade (rollingupgrade_types.go) with the operations on its
-- status, and its defaults (defaults.go). A duration is its nanoseconds; metav1.Duration's String is a
-- parameter.
pub mod Again
pub mod Conditions
pub mod Pointers
use karpenter_provider_tke.Prelude.{
  ℕ, String, ◌==◌, Bool, true, false, Option, none, some, List, [], ◌∷◌, if◌then◌else◌, ℤ, pos,
  wrap32,
}
use karpenter_provider_tke.Strconv.{◌<>◌, itoa}
use karpenter_provider_tke.NativeNode.Defaults.{text_or, true_if_nil, list_or}

-- intstr.IntOrString
pub data IntOrString : Type 0 where
  int : ℤ → IntOrString
  percentage : String → IntOrString

pub record AutoUpgradeOptions : Type 0 where
  pub auto_upgrade_start_time : String
  pub duration : ℤ
  pub weekly_period : List String

pub record UpdateStrategy : Type 0 where
  pub strategy_type : String
  pub max_unavailable : Option IntOrString
  pub upgrade_timeout : Option ℤ

pub record RollingUpgradeSpec : Type 0 where
  pub machine_set_name : String
  pub auto_upgrade : Option Bool
  pub upgrade_options : AutoUpgradeOptions
  pub components : List String
  pub strategy : UpdateStrategy
  pub desired_kubelet_version : String
  pub desired_runtime_version : String
  pub ignore_upgrade_failures : Option Bool

pub record RollingUpgradeCondition : Type 0 where
  pub condition_type : String
  pub status : String

pub record RollingUpgradeStatus : Type 0 where
  pub phase : String
  pub complete_percentage : String
  pub start_time : String
  pub end_time : String
  pub machines_processed : ℤ
  pub total_machines : ℤ
  pub total_processing_time : String
  pub conditions : List RollingUpgradeCondition

pub record RollingUpgrade : Type 0 where
  pub name : String
  pub spec : RollingUpgradeSpec
  pub status : RollingUpgradeStatus

abbrev pub available_weekly_periods : List String
available_weekly_periods =
    "Monday" ∷ "Tuesday" ∷ "Wednesday" ∷ "Thursday" ∷ "Friday" ∷ "Saturday" ∷ "Sunday" ∷ []

-- KubeletComponentType and RuntimeComponentType
abbrev pub default_components : List String
default_components = "Kubelet" ∷ "Rumtime" ∷ []

-- a pointer, or the default where it is nil
abbrev pub pointer_or {ℓ} : {A : Type ℓ} → A → Option A → Option A
pointer_or default none = some default
pointer_or default (some a) = some a

module _ (duration_string : ℤ → String) where
  -- two hours, where the duration has no text
  abbrev pub default_duration : ℤ → ℤ
  default_duration d = if duration_string d == "" then pos 7200000000000 else d

  -- SetDefaults_RollingUpgradeSpec
  unfoldable pub set_defaults_rolling_upgrade_spec : RollingUpgradeSpec → RollingUpgradeSpec
  set_defaults_rolling_upgrade_spec s = record s {
    auto_upgrade = pointer_or true s.auto_upgrade;
    upgrade_options = record {
      auto_upgrade_start_time = text_or "24:00" s.upgrade_options.auto_upgrade_start_time;
      duration = default_duration s.upgrade_options.duration;
      weekly_period = list_or available_weekly_periods s.upgrade_options.weekly_period;
    };
    components = list_or default_components s.components;
    strategy = record {
      strategy_type = text_or "randomUpdate" s.strategy.strategy_type;
      max_unavailable = pointer_or (int (pos 1)) s.strategy.max_unavailable;
      upgrade_timeout = pointer_or (pos 120000000000) s.strategy.upgrade_timeout;
    };
    ignore_upgrade_failures = pointer_or false s.ignore_upgrade_failures;
  }

  -- SetDefaults_RollingUpgrade
  unfoldable pub set_defaults_rolling_upgrade : RollingUpgrade → RollingUpgrade
  set_defaults_rolling_upgrade r = record r {
    name = r.spec.machine_set_name;
    spec = set_defaults_rolling_upgrade_spec r.spec;
  }

-- SetCondition
unfoldable pub set_condition :
    RollingUpgradeCondition → List RollingUpgradeCondition → List RollingUpgradeCondition
set_condition cond [] = cond ∷ []
set_condition cond (c ∷ cs) =
    let rest = set_condition cond cs in
    if c.condition_type == cond.condition_type then cond ∷ cs else c ∷ rest

-- SetTotalMachines and SetMachinesProcessed: int32 of an int
unfoldable pub set_total_machines : ℤ → RollingUpgradeStatus → RollingUpgradeStatus
set_total_machines n s = record s { total_machines = wrap32 n }

unfoldable pub set_machines_processed : ℤ → RollingUpgradeStatus → RollingUpgradeStatus
set_machines_processed n s = record s { machines_processed = wrap32 n }

unfoldable pub set_phase : String → RollingUpgradeStatus → RollingUpgradeStatus
set_phase phase s = record s { phase = phase }

unfoldable pub set_start_time : String → RollingUpgradeStatus → RollingUpgradeStatus
set_start_time time s = record s { start_time = time }

unfoldable pub set_end_time : String → RollingUpgradeStatus → RollingUpgradeStatus
set_end_time time s = record s { end_time = time }

unfoldable pub set_total_processing_time : String → RollingUpgradeStatus → RollingUpgradeStatus
set_total_processing_time time s = record s { total_processing_time = time }

unfoldable pub set_complete_percentage : ℤ → RollingUpgradeStatus → RollingUpgradeStatus
set_complete_percentage n s = record s { complete_percentage = itoa n <> "%" }

-- MaxUnavailable, which panics where the pointer is nil; UpgradeTimeout and IsIgnoreUpgradeFailures
abbrev pub max_unavailable_of : RollingUpgrade → Option IntOrString
max_unavailable_of r = r.spec.strategy.max_unavailable

abbrev pub upgrade_timeout_of : RollingUpgrade → Option ℤ
upgrade_timeout_of r = r.spec.strategy.upgrade_timeout

abbrev pub ignores_upgrade_failures : RollingUpgrade → Option Bool
ignores_upgrade_failures r = r.spec.ignore_upgrade_failures
