-- ===== src/NativeNode/Defaults.antt =====
-- staging/nativenode/v1beta1/defaults.go: the defaults of a provider spec, and in Machines those of machines
-- and machine sets, with the provider
-- spec in a raw extension (util.go). A raw extension is its text. A pointer that is nil is `none`; so is
-- the result of a function that goes through such a pointer and panics.
pub mod Machines
pub mod Spec
pub mod Parts
pub mod Complete
pub mod Value
pub mod Again
pub mod Panics
pub mod Prepaid
use karpenter_provider_tke.Prelude.{
  ℕ, String, ◌==◌, Bool, true, false, not, ◌&&◌, ◌||◌, Option, none, some, List, [], ◌∷◌, map,
  is_empty, if◌then◌else◌, ℤ, pos, eqb_ℤ, Dict, lookup, insert, Result, ok, err, relabel,
}
use karpenter_provider_tke.NativeNode.{
  CxmDisk, no_disk, InternetAccessible, InstanceChargePrepaid, ManagementConfig, ProviderSpec,
  prepaid_charge_type, postpaid_by_hour_charge_type, underwrite_charge_type,
  traffic_postpaid_by_hour, bandwidth_package, machine_type_native, machine_type_native_cvm,
  machine_type_cvm,
}
use karpenter_provider_tke.NativeNode.Duplicates.{remove_duplicate, remove_duplicate_kv_pairs}

abbrev pub default_nameservers : List String
default_nameservers = "183.60.83.19" ∷ "183.60.82.98" ∷ []

-- a text, or the default where it is empty
abbrev pub text_or : String → String → String
text_or default s = if s == "" then default else s

-- the default of Period and MaxBandwidthOut
abbrev pub one_if_zero : ℤ → ℤ
one_if_zero n = if eqb_ℤ n (pos 0) then pos 1 else n

unfoldable pub default_prepaid : InstanceChargePrepaid → InstanceChargePrepaid
default_prepaid p = record {
  period = one_if_zero p.period;
  renew_flag = text_or "NotifyAndManualRenew" p.renew_flag;
}

-- the pointer to it, under a charge type
unfoldable pub prepaid_under : String → Option InstanceChargePrepaid → Option InstanceChargePrepaid
unfolding default_prepaid
prepaid_under charge none =
    if charge == prepaid_charge_type
    then some (default_prepaid (record { period = pos 0; renew_flag = "" }))
    else none
prepaid_under charge (some p) =
    if charge == prepaid_charge_type then some (default_prepaid p) else some p

abbrev pub true_if_nil : Option Bool → Option Bool
true_if_nil none = some true
true_if_nil (some b) = some b

-- the body of the loop over the data disks
unfoldable pub default_disk : CxmDisk → CxmDisk
default_disk disk = record disk {
  delete_with_instance = true_if_nil disk.delete_with_instance;
  encrypt = if disk.kms_key_id == "" then disk.encrypt else "ENCRYPT";
}

-- the two tests of the charge type
abbrev pub internet_charge : String → String → String
internet_charge bundle charge =
    if not (bundle == "") && (charge == "")
    then bandwidth_package
    else text_or traffic_postpaid_by_hour charge

unfoldable pub default_internet : Option InternetAccessible → Option InternetAccessible
default_internet none = none
default_internet (some i) = some (record i {
  max_bandwidth_out = one_if_zero i.max_bandwidth_out;
  charge_type = internet_charge i.bandwidth_package_id i.charge_type;
  address_type = text_or "EIP" i.address_type;
})

-- the default where a list is empty, without duplicates
abbrev pub list_or : List String → List String → List String
list_or default xs = remove_duplicate (if is_empty xs then default else xs)

unfoldable pub default_names : List String → List String
default_names ns = list_or default_nameservers ns

unfoldable pub default_management : ManagementConfig → ManagementConfig
default_management m = record m {
  nameservers = default_names m.nameservers;
  kernel_args = remove_duplicate_kv_pairs m.kernel_args;
  kubelet_args = remove_duplicate_kv_pairs m.kubelet_args;
}

-- SetDefaults_CXMMachineProviderSpec, between the two raw extensions
unfoldable pub default_spec : ProviderSpec → ProviderSpec
default_spec spec =
    let charge = text_or postpaid_by_hour_charge_type spec.instance_charge_type in
    record spec {
      management = default_management spec.management;
      instance_charge_type = charge;
      instance_charge_prepaid = prepaid_under charge spec.instance_charge_prepaid;
      key_ids = remove_duplicate spec.key_ids;
      security_group_ids = remove_duplicate spec.security_group_ids;
      data_disks = map default_disk spec.data_disks;
      internet_accessible = default_internet spec.internet_accessible;
    }

-- the zero value of CXMMachineProviderSpec
abbrev pub no_spec : ProviderSpec
no_spec = record {
  lifecycle = record { pre_init = ""; post_init = "" };
  management = record { nameservers = []; hosts = []; kernel_args = []; kubelet_args = [] };
  instance_type = "";
  instance_charge_type = "";
  instance_charge_prepaid = none;
  security_group_ids = [];
  system_disk = no_disk;
  data_disks = [];
  key_ids = [];
  internet_accessible = none;
  host_name = "";
  hpc_cluster_id = "";
}
