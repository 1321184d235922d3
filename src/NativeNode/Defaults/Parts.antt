-- ===== src/NativeNode/Defaults/Parts.antt =====
-- What leaves the single parts of a provider spec as they are.
use mathlib.Core.Option.{some-injective}
use karpenter_provider_tke.Prelude.{
  ◌≡◌, ◌↔◌, ◌⊎◌, refl, sym, ap, ap₂, subst, ◌∙◌, String, ◌==◌, Bool, true, false, Option, none,
  some, List, [], ◌∷◌, map, is_empty, All, ℤ, pos, eqb_ℤ, Bool-cases, inl, inr,
}
use karpenter_provider_tke.NativeNode.{
  CxmDisk, InternetAccessible, InstanceChargePrepaid, prepaid_charge_type,
}
use karpenter_provider_tke.NativeNode.Duplicates.{
  remove_duplicate, remove_duplicate_kv_pairs, reversed, keep_pairs,
}
use karpenter_provider_tke.NativeNode.Duplicates.InPlace.{
  firsts, AreFresh, firsts-AreFresh, firsts_fixed, remove_duplicate-firsts,
}
use karpenter_provider_tke.NativeNode.Duplicates.Pairs.{
  ArePairs, keep_pairs-ArePairs, keep_pairs_fixed, reversed-reversed,
}
use karpenter_provider_tke.NativeNode.Defaults.{
  default_nameservers, text_or, one_if_zero, default_prepaid, prepaid_under, true_if_nil,
  default_disk, internet_charge, default_internet, default_names,
}

abbrev pub IsGiven : String → Type 0
IsGiven s = (s == "") ≡ false

abbrev pub IsNonzero : ℤ → Type 0
IsNonzero n = eqb_ℤ n (pos 0) ≡ false

-- a charge by the month has its period and its renewal
abbrev pub IsPrepaid : Bool → Option InstanceChargePrepaid → Type 0
IsPrepaid false o = Unit
IsPrepaid true none = ⊥
IsPrepaid true (some p) = IsNonzero p.period × IsGiven p.renew_flag

abbrev pub IsDisk : CxmDisk → Type 0
IsDisk d =
    (true_if_nil d.delete_with_instance ≡ d.delete_with_instance)
    × (((d.kms_key_id == "") ≡ true) ⊎ (d.encrypt ≡ "ENCRYPT"))

abbrev pub IsInternet : Option InternetAccessible → Type 0
IsInternet none = Unit
IsInternet (some n) = IsNonzero n.max_bandwidth_out × IsGiven n.charge_type × IsGiven n.address_type

-- lines of the form key=value, of which no two have the same key
abbrev pub HaveKeys : List String → Type 0
HaveKeys lines = ArePairs [] (reversed lines)

pub text_or_fixed : (d s : String) → IsGiven d → (text_or d s ≡ s) ↔ IsGiven s
text_or_fixed d s given = (
  λ e. elim (Bool-cases (s == "")) [
    | inr named ↦ named
    | inl blank ↦ subst (λ t. IsGiven t) (rw blank at e) given
  ],
  λ named. rw named refl,
)

one_if_zero_fixed : (n : ℤ) → (one_if_zero n ≡ n) ↔ IsNonzero n
one_if_zero_fixed n = (
  λ e. elim (Bool-cases (eqb_ℤ n (pos 0))) [
    | inr other ↦ other
    | inl zero_now ↦ subst (λ m. IsNonzero m) (rw zero_now at e) refl
  ],
  λ other. rw other refl,
)

default_prepaid_fixed :
    (p : InstanceChargePrepaid)
    → (default_prepaid p ≡ p) ↔ (IsNonzero p.period × IsGiven p.renew_flag)
unfolding default_prepaid
default_prepaid_fixed p = (
  λ e. (
    (one_if_zero_fixed p.period).0 (ap (λ (q : InstanceChargePrepaid). q.period) e),
    (text_or_fixed "NotifyAndManualRenew" p.renew_flag refl).0
        (ap (λ (q : InstanceChargePrepaid). q.renew_flag) e),
  ),
  λ (a, b).
      ap₂ (λ n f. record { period = n; renew_flag = f }) ((one_if_zero_fixed p.period).1 a)
        ((text_or_fixed "NotifyAndManualRenew" p.renew_flag refl).1 b),
)

pub prepaid_under_fixed :
    (charge : String) (o : Option InstanceChargePrepaid)
    → (prepaid_under charge o ≡ o) ↔ IsPrepaid (charge == prepaid_charge_type) o
unfolding prepaid_under
prepaid_under_fixed charge none = elim (Bool-cases (charge == prepaid_charge_type)) [
  | inl prepaid ↦ rw (prepaid_under, prepaid) (λ e. cc, λ h. absurd h)
  | inr other ↦ rw (prepaid_under, other) (λ e. tt, λ h. refl)
]
prepaid_under_fixed charge (some p) = elim (Bool-cases (charge == prepaid_charge_type)) [
  | inl prepaid ↦
      rw (prepaid_under, prepaid)
        (
          λ e. (default_prepaid_fixed p).0 (some-injective (default_prepaid p) p e),
          λ h. ap some ((default_prepaid_fixed p).1 h),
        )
  | inr other ↦ rw (prepaid_under, other) (λ e. tt, λ h. refl)
]

default_disk_fixed : (d : CxmDisk) → (default_disk d ≡ d) ↔ IsDisk d
unfolding default_disk
default_disk_fixed d = elim (Bool-cases (d.kms_key_id == "")) [
  | inl open_disk ↦ rw open_disk (
    λ e. (ap (λ (x : CxmDisk). x.delete_with_instance) e, inl refl),
    λ h. λ i. record d { delete_with_instance = h.0 i },
  )
  | inr keyed ↦ rw keyed (
    λ e. (
      ap (λ (x : CxmDisk). x.delete_with_instance) e,
      inr (sym (ap (λ (x : CxmDisk). x.encrypt) e)),
    ),
    λ (a, b). elim b [
      | inl blank ↦ cc
      | inr set ↦ λ i. record d { delete_with_instance = a i; encrypt = sym set i }
    ],
  )
]

pub disks_fixed : (ds : List CxmDisk) → (map default_disk ds ≡ ds) ↔ All IsDisk ds
disks_fixed [] = (λ e. tt, λ h. refl)
disks_fixed (d ∷ ds) = (
  λ e. ((default_disk_fixed d).0 (cc), (disks_fixed ds).0 (cc)),
  λ (a, b). ap₂ (λ x xs. x ∷ xs) ((default_disk_fixed d).1 a) ((disks_fixed ds).1 b),
)

pub internet_charge_fixed :
    (bundle charge : String) → (internet_charge bundle charge ≡ charge) ↔ IsGiven charge
internet_charge_fixed bundle charge = (
  λ e. elim (Bool-cases (charge == "")) [
    | inr given ↦ given
    | inl blank ↦ elim (Bool-cases (bundle == "")) [
      | inl alone ↦ subst (λ t. IsGiven t) (rw (blank, alone) at e) refl
      | inr bundled ↦ subst (λ t. IsGiven t) (rw (blank, bundled) at e) refl
    ]
  ],
  λ given. elim (Bool-cases (bundle == "")) [
    | inl alone ↦ rw (given, alone) refl
    | inr bundled ↦ rw (given, bundled) refl
  ],
)

pub default_internet_fixed :
    (o : Option InternetAccessible) → (default_internet o ≡ o) ↔ IsInternet o
unfolding default_internet
default_internet_fixed none = (λ e. tt, λ h. refl)
default_internet_fixed (some n) = (
  λ e.
      let same = some-injective _ n e in
      (
        (one_if_zero_fixed n.max_bandwidth_out).0
            (ap (λ (x : InternetAccessible). x.max_bandwidth_out) same),
        (internet_charge_fixed n.bandwidth_package_id n.charge_type).0
            (ap (λ (x : InternetAccessible). x.charge_type) same),
        (text_or_fixed "EIP" n.address_type refl).0
            (ap (λ (x : InternetAccessible). x.address_type) same),
      ),
  λ (a, b, c). λ i. some (record n {
    max_bandwidth_out = (one_if_zero_fixed n.max_bandwidth_out).1 a i;
    charge_type = (internet_charge_fixed n.bandwidth_package_id n.charge_type).1 b i;
    address_type = (text_or_fixed "EIP" n.address_type refl).1 c i;
  }),
)

pub remove_duplicate_fixed : (xs : List String) → (remove_duplicate xs ≡ xs) ↔ AreFresh [] xs
remove_duplicate_fixed xs = (
  λ e. subst (λ ys. AreFresh [] ys) (sym (remove_duplicate-firsts xs) ∙ e) (firsts-AreFresh [] xs),
  λ h. remove_duplicate-firsts xs ∙ firsts_fixed [] xs h,
)

pub pairs_fixed : (lines : List String) → (remove_duplicate_kv_pairs lines ≡ lines) ↔ HaveKeys lines
unfolding remove_duplicate_kv_pairs
pairs_fixed lines = (
  λ e.
      subst (λ ys. ArePairs [] ys)
        (sym (reversed-reversed (keep_pairs [] (reversed lines))) ∙ ap reversed e)
        (keep_pairs-ArePairs [] (reversed lines)),
  λ h. ap reversed (keep_pairs_fixed [] (reversed lines) h) ∙ reversed-reversed lines,
)

default_nameservers-present : is_empty (remove_duplicate default_nameservers) ≡ false
unfolding firsts
default_nameservers-present = ap is_empty (remove_duplicate-firsts default_nameservers)

pub names_fixed :
    (ns : List String) → (default_names ns ≡ ns) ↔ ((is_empty ns ≡ false) × AreFresh [] ns)
unfolding default_names
names_fixed [] = (λ e. cc (sym default_nameservers-present ∙ ap is_empty e), λ (a, b). cc)
names_fixed (n ∷ ns) = (
  λ e. (refl, (remove_duplicate_fixed (n ∷ ns)).0 e),
  λ h. (remove_duplicate_fixed (n ∷ ns)).1 h.1,
)
