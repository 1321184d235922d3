-- ===== src/NativeNode/Defaults/Spec.antt =====
-- The defaults of a provider spec leave it as it is when they are set again, but for one case.
use karpenter_provider_tke.Prelude.{
  ◌≡◌, ◌↔◌, ◌⊎◌, refl, sym, ap, ap₂, subst, ◌∙◌, String, ◌==◌, Bool, true, false, not, Option, none,
  some, List, [], ◌∷◌, map, is_empty, any_of, if◌then◌else◌, ℤ, pos, eqb_ℤ, Bool-cases, inl, inr,
}
use karpenter_provider_tke.NativeNode.{
  CxmDisk, InternetAccessible, InstanceChargePrepaid, ProviderSpec, prepaid_charge_type,
  postpaid_by_hour_charge_type,
}
use karpenter_provider_tke.NativeNode.Duplicates.{remove_duplicate}
use karpenter_provider_tke.NativeNode.Duplicates.InPlace.{
  firsts, remove_duplicate-firsts, remove_duplicate_idem,
}
use karpenter_provider_tke.NativeNode.Duplicates.Pairs.{remove_duplicate_kv_pairs_idem}
use karpenter_provider_tke.NativeNode.Defaults.{
  default_nameservers, text_or, one_if_zero, default_prepaid, prepaid_under, true_if_nil,
  default_disk, internet_charge, default_internet, default_names, list_or, default_management,
  default_spec,
}

-- the list is empty or has a name that is not the empty text
abbrev pub IsNamed : List String → Type 0
IsNamed ns = (ns ≡ []) ⊎ (any_of (λ n. not (n == "")) ns ≡ true)

firsts-named : (ns : List String) → is_empty (firsts [] ns) ≡ not (any_of (λ n. not (n == "")) ns)
unfolding firsts
firsts-named [] = refl
firsts-named (n ∷ ns) = elim (Bool-cases (n == "")) [
  | inl blank ↦ rw (firsts, blank) (firsts-named ns)
  | inr named ↦ rw (firsts, named) refl
]

pub text_or_idem : (d s : String) → text_or d (text_or d s) ≡ text_or d s
text_or_idem d s = elim (Bool-cases (s == "")) [
  | inl blank ↦ rw (blank) (elim (Bool-cases (d == "")) [ inl e ↦ rw e refl | inr e ↦ rw e refl ])
  | inr named ↦ rw (named, named) refl
]

one_if_zero_idem : (n : ℤ) → one_if_zero (one_if_zero n) ≡ one_if_zero n
one_if_zero_idem n = elim (Bool-cases (eqb_ℤ n (pos 0))) [
  | inl zero_now ↦ rw zero_now refl
  | inr other ↦ rw (other, other) refl
]

default_prepaid_idem :
    (p : InstanceChargePrepaid) → default_prepaid (default_prepaid p) ≡ default_prepaid p
unfolding default_prepaid
default_prepaid_idem p =
    ap₂ (λ n f. record { period = n; renew_flag = f }) (one_if_zero_idem p.period)
      (text_or_idem "NotifyAndManualRenew" p.renew_flag)

prepaid_under_idem :
    (charge : String) (o : Option InstanceChargePrepaid)
    → prepaid_under charge (prepaid_under charge o) ≡ prepaid_under charge o
unfolding prepaid_under
prepaid_under_idem charge none = elim (Bool-cases (charge == prepaid_charge_type)) [
  | inl prepaid ↦
      rw (prepaid, prepaid_under, prepaid)
        (ap some (default_prepaid_idem (record { period = pos 0; renew_flag = "" })))
  | inr other ↦ rw (other, prepaid_under, other) refl
]
prepaid_under_idem charge (some p) = elim (Bool-cases (charge == prepaid_charge_type)) [
  | inl prepaid ↦ rw (prepaid, prepaid_under, prepaid) (ap some (default_prepaid_idem p))
  | inr other ↦ rw (other, prepaid_under, other) refl
]

true_if_nil_idem : (o : Option Bool) → true_if_nil (true_if_nil o) ≡ true_if_nil o
true_if_nil_idem none = refl
true_if_nil_idem (some b) = refl

default_disk_idem : (d : CxmDisk) → default_disk (default_disk d) ≡ default_disk d
unfolding default_disk
default_disk_idem d = elim (Bool-cases (d.kms_key_id == "")) [
  | inl open_disk ↦
      rw open_disk
        (λ i. record d { delete_with_instance = true_if_nil_idem d.delete_with_instance i })
  | inr keyed ↦ rw keyed (λ i. record d {
    delete_with_instance = true_if_nil_idem d.delete_with_instance i;
    encrypt = "ENCRYPT";
  })
]

disks_idem : (ds : List CxmDisk) → map default_disk (map default_disk ds) ≡ map default_disk ds
disks_idem [] = refl
disks_idem (d ∷ ds) = ap₂ (λ x xs. x ∷ xs) (default_disk_idem d) (disks_idem ds)

internet_charge_idem :
    (bundle charge : String)
    → internet_charge bundle (internet_charge bundle charge) ≡ internet_charge bundle charge
internet_charge_idem bundle charge = elim (Bool-cases (charge == "")) [
  | inl blank ↦ elim (Bool-cases (bundle == "")) [
    | inl alone ↦ rw (blank, alone) refl
    | inr bundled ↦ rw (blank, bundled) refl
  ]
  | inr given ↦ elim (Bool-cases (bundle == "")) [
    | inl alone ↦ rw (given, alone, given) refl
    | inr bundled ↦ rw (given, bundled, given) refl
  ]
]

default_internet_idem :
    (o : Option InternetAccessible) → default_internet (default_internet o) ≡ default_internet o
unfolding default_internet
default_internet_idem none = refl
default_internet_idem (some n) = λ i. some (record n {
  max_bandwidth_out = one_if_zero_idem n.max_bandwidth_out i;
  charge_type = internet_charge_idem n.bandwidth_package_id n.charge_type i;
  address_type = text_or_idem "EIP" n.address_type i;
})

named-remove_duplicate :
    (ns : List String) → is_empty (remove_duplicate ns) ≡ not (any_of (λ n. not (n == "")) ns)
named-remove_duplicate ns = ap is_empty (remove_duplicate-firsts ns) ∙ firsts-named ns

default_nameservers_fixed : remove_duplicate default_nameservers ≡ default_nameservers
unfolding firsts
default_nameservers_fixed = remove_duplicate-firsts default_nameservers

pub list_or_idem :
    (default xs : List String)
    → remove_duplicate default ≡ default
    → IsNamed xs
    → list_or default (list_or default xs) ≡ list_or default xs
list_or_idem default [] fixed named =
    subst (λ ys. remove_duplicate (if is_empty ys then default else ys) ≡ ys) (sym fixed)
      (elim (Bool-cases (is_empty default)) [ inl e ↦ rw e fixed | inr e ↦ rw e fixed ])
list_or_idem default (x ∷ xs) fixed (inl missing) = cc
list_or_idem default (x ∷ xs) fixed (inr named) =
    let full : is_empty (remove_duplicate (x ∷ xs)) ≡ false =
      named-remove_duplicate (x ∷ xs) ∙ ap not named in
    rw full (remove_duplicate_idem (x ∷ xs))

-- Texts that are all empty leave none, and then the next run sets the default ones.
pub list_or_idem-IsNamed :
    (default xs : List String)
    → remove_duplicate default ≡ default
    → is_empty default ≡ false
    → list_or default (list_or default xs) ≡ list_or default xs
    → IsNamed xs
list_or_idem-IsNamed default [] fixed present e = inl refl
list_or_idem-IsNamed default (x ∷ xs) fixed present e =
    elim (Bool-cases (any_of (λ n. not (n == "")) (x ∷ xs))) [
      | inl named ↦ inr named
      | inr blank ↦
          let gone : is_empty (remove_duplicate (x ∷ xs)) ≡ true =
            named-remove_duplicate (x ∷ xs) ∙ ap not blank in
          let again : is_empty (remove_duplicate default) ≡ true =
            ap is_empty (rw gone at e) ∙ gone in
          cc (sym present ∙ sym (ap is_empty fixed) ∙ again)
    ]

-- Setting the defaults of a provider spec a second time changes nothing exactly if the nameservers
-- are none or have one that is not the empty text.
pub default_spec_idem :
    (spec : ProviderSpec)
    → (default_spec (default_spec spec) ≡ default_spec spec) ↔ IsNamed spec.management.nameservers
unfolding default_spec default_management default_names
default_spec_idem spec = (
  λ e.
      list_or_idem-IsNamed default_nameservers spec.management.nameservers default_nameservers_fixed
        refl (ap (λ (s : ProviderSpec). s.management.nameservers) e),
  λ named.
      let m = spec.management in
      let charge = text_or postpaid_by_hour_charge_type spec.instance_charge_type in
      let c = text_or_idem postpaid_by_hour_charge_type spec.instance_charge_type in
      let o = spec.instance_charge_prepaid in
      let p = ap (λ x. prepaid_under x (prepaid_under charge o)) c ∙ prepaid_under_idem charge o in
      λ i. record spec {
        management = record m {
          nameservers =
              list_or_idem default_nameservers m.nameservers default_nameservers_fixed named i;
          kernel_args = remove_duplicate_kv_pairs_idem m.kernel_args i;
          kubelet_args = remove_duplicate_kv_pairs_idem m.kubelet_args i;
        };
        instance_charge_type = c i;
        instance_charge_prepaid = p i;
        key_ids = remove_duplicate_idem spec.key_ids i;
        security_group_ids = remove_duplicate_idem spec.security_group_ids i;
        data_disks = disks_idem spec.data_disks i;
        internet_accessible = default_internet_idem spec.internet_accessible i;
      },
)
