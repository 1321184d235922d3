-- ===== src/NativeNode/Defaults/Complete.antt =====
-- The provider specs that the defaults leave as they are.
use karpenter_provider_tke.Prelude.{
  ◌≡◌, ◌↔◌, refl, ap, subst, ◌∙◌, String, ◌==◌, false, [], is_empty, All,
}
use karpenter_provider_tke.NativeNode.{
  ProviderSpec, prepaid_charge_type, postpaid_by_hour_charge_type,
}
use karpenter_provider_tke.NativeNode.Duplicates.InPlace.{AreFresh}
use karpenter_provider_tke.NativeNode.Defaults.{
  text_or, prepaid_under, default_management, default_spec,
}
use karpenter_provider_tke.NativeNode.Defaults.Parts.{
  IsGiven, IsPrepaid, IsDisk, IsInternet, HaveKeys, prepaid_under_fixed, disks_fixed,
  default_internet_fixed, remove_duplicate_fixed, pairs_fixed, names_fixed, text_or_fixed,
}

-- Nothing is left for a default.
pub record IsComplete (spec : ProviderSpec) : Type 0 where
  pub nameservers :
      (is_empty spec.management.nameservers ≡ false) × AreFresh [] spec.management.nameservers
  pub kernel_args : HaveKeys spec.management.kernel_args
  pub kubelet_args : HaveKeys spec.management.kubelet_args
  pub charge : IsGiven spec.instance_charge_type
  pub prepaid :
      IsPrepaid (spec.instance_charge_type == prepaid_charge_type) spec.instance_charge_prepaid
  pub keys : AreFresh [] spec.key_ids
  pub groups : AreFresh [] spec.security_group_ids
  pub disks : All IsDisk spec.data_disks
  pub internet : IsInternet spec.internet_accessible

charge_fixed : (s : String) → (text_or postpaid_by_hour_charge_type s ≡ s) ↔ IsGiven s
charge_fixed s = text_or_fixed postpaid_by_hour_charge_type s refl

fixed-IsComplete : (spec : ProviderSpec) → default_spec spec ≡ spec → IsComplete spec
unfolding default_spec default_management
fixed-IsComplete spec e =
    let charge = ap (λ (s : ProviderSpec). s.instance_charge_type) e in
    let prepaid : prepaid_under (text_or postpaid_by_hour_charge_type spec.instance_charge_type)
          spec.instance_charge_prepaid
        ≡ spec.instance_charge_prepaid =
      ap (λ (s : ProviderSpec). s.instance_charge_prepaid) e in
    record {
      nameservers =
          (names_fixed spec.management.nameservers).0
            (ap (λ (s : ProviderSpec). s.management.nameservers) e);
      kernel_args =
          (pairs_fixed spec.management.kernel_args).0
            (ap (λ (s : ProviderSpec). s.management.kernel_args) e);
      kubelet_args =
          (pairs_fixed spec.management.kubelet_args).0
            (ap (λ (s : ProviderSpec). s.management.kubelet_args) e);
      charge = (charge_fixed spec.instance_charge_type).0 charge;
      prepaid = (prepaid_under_fixed spec.instance_charge_type spec.instance_charge_prepaid).0 (
          subst (λ c. prepaid_under c spec.instance_charge_prepaid ≡ spec.instance_charge_prepaid)
            charge prepaid);
      keys = (remove_duplicate_fixed spec.key_ids).0 (ap (λ (s : ProviderSpec). s.key_ids) e);
      groups =
          (remove_duplicate_fixed spec.security_group_ids).0
            (ap (λ (s : ProviderSpec). s.security_group_ids) e);
      disks = (disks_fixed spec.data_disks).0 (ap (λ (s : ProviderSpec). s.data_disks) e);
      internet =
          (default_internet_fixed spec.internet_accessible).0
            (ap (λ (s : ProviderSpec). s.internet_accessible) e);
    }

IsComplete-fixed : (spec : ProviderSpec) → IsComplete spec → default_spec spec ≡ spec
unfolding default_spec default_management
IsComplete-fixed spec h =
    let m = spec.management in
    let charge = (charge_fixed spec.instance_charge_type).1 h.charge in
    let prepaid =
      ap (λ c. prepaid_under c spec.instance_charge_prepaid) charge
      ∙ (prepaid_under_fixed spec.instance_charge_type spec.instance_charge_prepaid).1 h.prepaid in
    λ i. record spec {
      management = record m {
        nameservers = (names_fixed m.nameservers).1 h.nameservers i;
        kernel_args = (pairs_fixed m.kernel_args).1 h.kernel_args i;
        kubelet_args = (pairs_fixed m.kubelet_args).1 h.kubelet_args i;
      };
      instance_charge_type = charge i;
      instance_charge_prepaid = prepaid i;
      key_ids = (remove_duplicate_fixed spec.key_ids).1 h.keys i;
      security_group_ids = (remove_duplicate_fixed spec.security_group_ids).1 h.groups i;
      data_disks = (disks_fixed spec.data_disks).1 h.disks i;
      internet_accessible = (default_internet_fixed spec.internet_accessible).1 h.internet i;
    }

-- The defaults leave a provider spec as it is exactly if it has nameservers; its nameservers, keys
-- and security groups are not empty texts and no two are equal; its kernel and kubelet arguments
-- have the form key=value with different keys; its charge type is set; under a prepaid charge a
-- period and a renewal are set; each data disk says whether it goes with the instance and is
-- encrypted if it has a key; and its network access, if there is one, has a bandwidth, a charge
-- type and an address type.
pub default_spec_fixed : (spec : ProviderSpec) → (default_spec spec ≡ spec) ↔ IsComplete spec
default_spec_fixed spec = (fixed-IsComplete spec, IsComplete-fixed spec)
