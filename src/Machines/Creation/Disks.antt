-- ===== src/Machines/Creation/Disks.antt =====
-- The system disk, the data disks and the network access that Create asks for, and getTargetAnnotations.
use karpenter_provider_tke.Prelude.{
  ℕ, suc, String, ◌==◌, Bool, true, not, Option, none, some, List, [], ◌∷◌, if◌then◌else◌, ℤ, pos,
  Dict, lookup, insert, text_at,
}
use karpenter_provider_tke.Labels
use karpenter_provider_tke.Strconv.{split, split_two, itoa_ℕ, atoi}
use karpenter_provider_tke.Kube.{text_of}
use karpenter_provider_tke.NativeNode.{
  CxmDisk, no_disk, InternetAccessible, traffic_postpaid_by_hour,
}
use karpenter_provider_tke.Machines.Creation.{SystemDisk, DataDisk, NetworkAccess, NodeClassSpec}

-- the loop of getTargetAnnotations: a part without `=` is left out
unfoldable pub add_pairs : List String → Dict String → Dict String
add_pairs [] kv = kv
add_pairs (anno ∷ annos) kv =
    add_pairs annos (elim (split_two b'=' anno) [ none ↦ kv | some (k, v) ↦ insert k v kv ])

-- getTargetAnnotations; the nil map is the empty one.
unfoldable pub get_target_annotations : String → Dict String → Dict String
get_target_annotations target_key annotations = elim (lookup target_key annotations) [
  | none ↦ []
  | some val ↦ add_pairs (split b',' val) []
]

abbrev disk_size_of : Option SystemDisk → ℤ
disk_size_of none = pos 50
disk_size_of (some d) = d.size

abbrev disk_type_of : Option SystemDisk → String
disk_type_of none = "CloudPremium"
disk_type_of (some d) = d.disk_type

-- the system disk, with its encryption by the annotations of the node class; an empty text sets nothing.
unfoldable pub system_disk_of : NodeClassSpec → CxmDisk
system_disk_of class = record no_disk {
  disk_size = disk_size_of class.system_disk;
  disk_type = disk_type_of class.system_disk;
  encrypt = text_at Labels.annotation_system_disk_encrypt_key class.annotations;
  kms_key_id = text_at Labels.annotation_system_disk_kms_id class.annotations;
}

abbrev number_or_zero : Option String → ℤ
number_or_zero none = pos 0
number_or_zero (some t) = elim (atoi t) [ none ↦ pos 0 | some n ↦ n ]

abbrev or_ext4 : Option String → String
or_ext4 none = "ext4"
or_ext4 (some f) = f

-- `target key i` is what the annotation of the node class under `key` says of the disk `i`, `clean` is
-- path.Clean.
module _ (clean : String → String) where
  -- one round of the loop over the data disks
  unfoldable pub cxm_disk : NodeClassSpec → ℕ → DataDisk → CxmDisk
  cxm_disk class i d =
      let target : String → Option String =
        λ (key : String). lookup (itoa_ℕ i) (get_target_annotations key class.annotations) in
      let mounted = not (text_of d.mount_target == "") in
      record no_disk {
        disk_type = d.disk_type;
        disk_size = d.size;
        delete_with_instance = some true;
        file_system = or_ext4 d.file_system;
        throughput_performance =
            number_or_zero (target Labels.annotation_data_disks_throughput_key);
        encrypt = text_of (target Labels.annotation_data_disks_encrypt_key);
        kms_key_id = text_of (target Labels.annotation_data_disks_kms_id);
        snapshot_id = text_of (target Labels.annotation_data_disks_snapshot_id);
        image_cache_id = text_of (target Labels.annotation_data_disks_image_cache_id);
        auto_format_and_mount = mounted;
        mount_target = if mounted then clean (text_of d.mount_target) else "";
      }

  -- the loop, from the index on
  unfoldable pub data_disks_of : NodeClassSpec → ℕ → List DataDisk → List CxmDisk
  data_disks_of class i [] = []
  data_disks_of class i (d ∷ ds) = cxm_disk class i d ∷ data_disks_of class (suc i) ds

abbrev pub or_text : String → Option String → String
or_text old none = old
or_text old (some t) = t

abbrev or_number : ℤ → Option ℤ → ℤ
or_number old none = old
or_number old (some n) = n

-- PublicIpAddressType
abbrev pub public_ip_address_type : String
public_ip_address_type = "PublicIP"

-- the network access; a spot machine takes a public IP address
unfoldable pub internet_of : Bool → Option NetworkAccess → Option InternetAccessible
internet_of spot none = none
internet_of spot (some n) = some (record {
  max_bandwidth_out = or_number (pos 1) n.max_bandwidth_out;
  charge_type = or_text traffic_postpaid_by_hour n.charge_type;
  address_id = none;
  bandwidth_package_id = or_text "" n.bandwidth_package_id;
  public_ip_assigned = spot;
  address_type = if spot then public_ip_address_type else "";
})
