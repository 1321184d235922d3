-- ===== src/NativeNode.antt =====
-- staging/nativenode/v1beta1: the provider spec of a machine (cxmprovider_types.go) and the part of a
-- machine's spec (machine_types.go) that Kube.Machine does not have. The metadata of a provider spec is
-- left out: the program does not set it. A nil slice is an empty list.
pub mod Duplicates
pub mod Defaults
pub mod Upgrades
use karpenter_provider_tke.Prelude.{String, Bool, false, Option, none, List, ℤ, pos, Dict}

-- CXMDisk
pub record CxmDisk : Type 0 where
  pub disk_type : String
  pub disk_size : ℤ
  pub disk_id : Option String
  pub delete_with_instance : Option Bool
  pub auto_format_and_mount : Bool
  pub file_system : String
  pub mount_target : String
  pub encrypt : String
  pub kms_key_id : String
  pub snapshot_id : String
  pub throughput_performance : ℤ
  pub disk_partition : String
  pub image_cache_id : String

-- the zero value of CXMDisk
abbrev pub no_disk : CxmDisk
no_disk = record {
  disk_type = "";
  disk_size = pos 0;
  disk_id = none;
  delete_with_instance = none;
  auto_format_and_mount = false;
  file_system = "";
  mount_target = "";
  encrypt = "";
  kms_key_id = "";
  snapshot_id = "";
  throughput_performance = pos 0;
  disk_partition = "";
  image_cache_id = "";
}

pub record InternetAccessible : Type 0 where
  pub max_bandwidth_out : ℤ
  pub charge_type : String
  pub address_id : Option String
  pub bandwidth_package_id : String
  pub public_ip_assigned : Bool
  pub address_type : String

pub record InstanceChargePrepaid : Type 0 where
  pub period : ℤ
  pub renew_flag : String

-- core.HostAlias
pub record HostAlias : Type 0 where
  pub ip : String
  pub hostnames : List String

pub record ManagementConfig : Type 0 where
  pub nameservers : List String
  pub hosts : List HostAlias
  pub kernel_args : List String
  pub kubelet_args : List String

pub record LifecycleConfig : Type 0 where
  pub pre_init : String
  pub post_init : String

-- CXMMachineProviderSpec
pub record ProviderSpec : Type 0 where
  pub lifecycle : LifecycleConfig
  pub management : ManagementConfig
  pub instance_type : String
  pub instance_charge_type : String
  pub instance_charge_prepaid : Option InstanceChargePrepaid
  pub security_group_ids : List String
  pub system_disk : CxmDisk
  pub data_disks : List CxmDisk
  pub key_ids : List String
  pub internet_accessible : Option InternetAccessible
  pub host_name : String
  pub hpc_cluster_id : String

-- GPUParams
pub record GpuParams : Type 0 where
  pub driver : String
  pub cuda : String
  pub cudnn : String
  pub mig_enable : Bool
  pub fabric : Bool

-- MachineSpec, without what stands in Kube.Machine
pub record MachineSpec : Type 0 where
  pub annotations : Dict String
  pub display_name : String
  pub subnet_id : String
  pub runtime_root_dir : String
  pub gpu_config : GpuParams
  pub provider_type : String

-- InstanceChargeType
abbrev pub prepaid_charge_type : String
prepaid_charge_type = "PrepaidCharge"

abbrev pub postpaid_by_hour_charge_type : String
postpaid_by_hour_charge_type = "PostpaidByHour"

abbrev pub underwrite_charge_type : String
underwrite_charge_type = "Underwrite"

abbrev pub spotpaid_charge_type : String
spotpaid_charge_type = "Spotpaid"

-- InternetChargeType
abbrev pub traffic_postpaid_by_hour : String
traffic_postpaid_by_hour = "TrafficPostpaidByHour"

abbrev pub bandwidth_package : String
bandwidth_package = "BandwidthPackage"

-- MachineType
abbrev pub machine_type_native : String
machine_type_native = "Native"

abbrev pub machine_type_native_cvm : String
machine_type_native_cvm = "NativeCVM"

abbrev pub machine_type_cvm : String
machine_type_cvm = "CVM"
