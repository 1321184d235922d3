-- ===== src/Labels.antt =====
-- pkg/apis/v1beta1/labels.go, and the names of labels and resources that the code takes from
-- Kubernetes and Karpenter. `group` is Group of pkg/apis/v1beta1/register.go.
use karpenter_provider_tke.Prelude.{String}
use karpenter_provider_tke.Strconv.{◌<>◌}

abbrev pub group : String
group = "karpenter.k8s.tke"

abbrev pub capacity_group : String
capacity_group = "capacity." <> group

abbrev pub kube_reserved_group : String
kube_reserved_group = "kube-reserved." <> group

abbrev pub system_reserved_group : String
system_reserved_group = "system-reserved." <> group

abbrev pub eviction_threshold_group : String
eviction_threshold_group = "eviction-threshold." <> group

abbrev pub label_provider_id_initialized : String
label_provider_id_initialized = group <> "/provider-id-initialized"

abbrev pub label_node_class : String
label_node_class = group <> "/tkemachinenodeclass"

abbrev pub label_node_claim : String
label_node_claim = group <> "/nodeclaim"

abbrev pub label_instance_family : String
label_instance_family = group <> "/instance-family"

abbrev pub label_instance_cpu : String
label_instance_cpu = group <> "/instance-cpu"

abbrev pub label_instance_memory_gb : String
label_instance_memory_gb = group <> "/instance-memory-gb"

abbrev pub label_cbs_toplogy : String
label_cbs_toplogy = "topology.com.tencent.cloud.csi.cbs/zone"

abbrev pub tke_label_eniip : String
tke_label_eniip = "tke.cloud.tencent.com/eni-ip"

abbrev pub tke_label_direct_eni : String
tke_label_direct_eni = "tke.cloud.tencent.com/direct-eni"

abbrev pub tke_label_eni : String
tke_label_eni = "tke.cloud.tencent.com/eni"

abbrev pub tke_label_sub_eni : String
tke_label_sub_eni = "tke.cloud.tencent.com/sub-eni"

abbrev pub tke_label_eip : String
tke_label_eip = "tke.cloud.tencent.com/eip"

abbrev pub annotation_memory : String
annotation_memory = "/memory"

abbrev pub annotation_cpu : String
annotation_cpu = "/cpu"

abbrev pub annotation_pods : String
annotation_pods = "/pods"

abbrev pub annotation_eniip : String
annotation_eniip = "/eni-ip"

abbrev pub annotation_direct_eni : String
annotation_direct_eni = "/direct-eni"

abbrev pub annotation_eni : String
annotation_eni = "/eni"

abbrev pub annotation_sub_eni : String
annotation_sub_eni = "/sub-eni"

abbrev pub annotation_eip : String
annotation_eip = "/eip"

abbrev pub annotation_gpu_count : String
annotation_gpu_count = "/gpu-count"

abbrev pub annotation_ephemeral_storage : String
annotation_ephemeral_storage = "/ephemeral-storage"

abbrev pub annotation_owned_machine : String
annotation_owned_machine = group <> "/owned-machine"

abbrev pub annotation_managed_by : String
annotation_managed_by = group <> "/managed-by"

abbrev pub annotation_unit_price : String
annotation_unit_price = group <> "/unit-price"

abbrev pub termination_finalizer : String
termination_finalizer = group <> "/termination"

abbrev pub annotation_kubelet_arg_prefix : String
annotation_kubelet_arg_prefix = "beta." <> group <> ".kubelet.arg/"

abbrev pub annotation_kernel_arg_prefix : String
annotation_kernel_arg_prefix = "beta." <> group <> ".kernel.arg/"

abbrev pub annotation_hosts_prefix : String
annotation_hosts_prefix = "beta." <> group <> ".hosts.ip/"

abbrev pub annotation_gpu_driver_key : String
annotation_gpu_driver_key = "beta." <> group <> ".gpu/driver"

abbrev pub annotation_gpu_cuda_key : String
annotation_gpu_cuda_key = "beta." <> group <> ".gpu/cuda"

abbrev pub annotation_gpu_cudnn_key : String
annotation_gpu_cudnn_key = "beta." <> group <> ".gpu/cudnn"

abbrev pub annotation_gpu_mig_enable_key : String
annotation_gpu_mig_enable_key = "beta." <> group <> ".gpu/mig-enable"

abbrev pub annotation_fabric_key : String
annotation_fabric_key = "beta." <> group <> ".gpu/fabric"

abbrev pub annotation_runtime_root_key : String
annotation_runtime_root_key = "beta." <> group <> ".machine/runtime-root"

abbrev pub annotation_hostname_key : String
annotation_hostname_key = "beta." <> group <> ".machine/hostname"

abbrev pub annotation_nameservers_key : String
annotation_nameservers_key = "beta." <> group <> ".machine/nameservers"

abbrev pub annotation_machine_spec_annotations_key : String
annotation_machine_spec_annotations_key = "beta." <> group <> ".machine.spec/annotations"

abbrev pub annotation_machine_meta_annotations_key : String
annotation_machine_meta_annotations_key = "beta." <> group <> ".machine.meta/annotations"

abbrev pub annotation_data_disks_throughput_key : String
annotation_data_disks_throughput_key = "beta." <> group <> ".datadisks/throughput"

abbrev pub annotation_data_disks_encrypt_key : String
annotation_data_disks_encrypt_key = "beta." <> group <> ".datadisks/encrypt"

abbrev pub annotation_data_disks_kms_id : String
annotation_data_disks_kms_id = "beta." <> group <> ".datadisks/kms-id"

abbrev pub annotation_data_disks_snapshot_id : String
annotation_data_disks_snapshot_id = "beta." <> group <> ".datadisks/snapshot-id"

abbrev pub annotation_data_disks_image_cache_id : String
annotation_data_disks_image_cache_id = "beta." <> group <> ".datadisks/image-cache-id"

abbrev pub annotation_system_disk_encrypt_key : String
annotation_system_disk_encrypt_key = "beta." <> group <> ".systemdisk/encrypt"

abbrev pub annotation_system_disk_kms_id : String
annotation_system_disk_kms_id = "beta." <> group <> ".systemdisk/kms-id"

abbrev pub resource_nvidia_gpu : String
resource_nvidia_gpu = "nvidia.com/gpu"

-- Names of Kubernetes and Karpenter
abbrev pub capacity_type_label_key : String
capacity_type_label_key = "karpenter.sh/capacity-type"

abbrev pub node_pool_label_key : String
node_pool_label_key = "karpenter.sh/nodepool"

abbrev pub capacity_type_spot : String
capacity_type_spot = "spot"

abbrev pub capacity_type_on_demand : String
capacity_type_on_demand = "on-demand"

abbrev pub label_topology_zone : String
label_topology_zone = "topology.kubernetes.io/zone"

abbrev pub label_arch_stable : String
label_arch_stable = "kubernetes.io/arch"

abbrev pub label_os_stable : String
label_os_stable = "kubernetes.io/os"

abbrev pub label_instance_type_stable : String
label_instance_type_stable = "node.kubernetes.io/instance-type"

abbrev pub label_windows_build : String
label_windows_build = "node.kubernetes.io/windows-build"

abbrev pub resource_cpu : String
resource_cpu = "cpu"

abbrev pub resource_memory : String
resource_memory = "memory"

abbrev pub resource_pods : String
resource_pods = "pods"

abbrev pub resource_ephemeral_storage : String
resource_ephemeral_storage = "ephemeral-storage"
