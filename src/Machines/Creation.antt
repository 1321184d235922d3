-- ===== src/Machines/Creation.antt =====
-- Create of pkg/providers/machine/machine.go, from the instance types to the machine that it sends.
-- Arguments is the loop over the annotations of the NodeClaim, Disks are the disks and the network
-- access, Build puts the machine together.
pub mod Arguments
pub mod Disks
pub mod Build
pub mod Placement
use karpenter_provider_tke.Prelude.{String, Option, List, ℤ, Dict}

-- api.SystemDisk
pub record SystemDisk : Type 0 where
  pub size : ℤ
  pub disk_type : String

-- api.DataDisk
pub record DataDisk : Type 0 where
  pub size : ℤ
  pub disk_type : String
  pub mount_target : Option String
  pub file_system : Option String

-- api.InternetAccessible
pub record NetworkAccess : Type 0 where
  pub max_bandwidth_out : Option ℤ
  pub charge_type : Option String
  pub bandwidth_package_id : Option String

-- api.LifecycleScript
pub record LifecycleScript : Type 0 where
  pub pre_init_script : Option String
  pub post_init_script : Option String

-- TKEMachineNodeClassSpec, without the selector terms, and the annotations of the node class
pub record NodeClassSpec : Type 0 where
  pub annotations : Dict String
  pub system_disk : Option SystemDisk
  pub data_disks : List DataDisk
  pub internet_accessible : Option NetworkAccess
  pub lifecycle_script : Option LifecycleScript
  pub tags : Dict String
