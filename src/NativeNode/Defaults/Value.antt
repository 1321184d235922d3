-- ===== src/NativeNode/Defaults/Value.antt =====
-- Setting the defaults of a provider's value again.
use mathlib.Core.Option.{some-injective}
use karpenter_provider_tke.Prelude.{
  ◌≡◌, refl, sym, ap, subst, ◌∙◌, String, ◌==◌, eq_iff, Bool, true, false, ◌||◌, Option, none, some,
  Error, Result, ok, err, relabel, Bool-cases, Option-cases, Result-cases, inl, inr,
}
use karpenter_provider_tke.NativeNode.{
  ProviderSpec, prepaid_charge_type, postpaid_by_hour_charge_type, underwrite_charge_type,
  machine_type_native,
}
use karpenter_provider_tke.NativeNode.Defaults.{text_or, default_spec}
use karpenter_provider_tke.NativeNode.Defaults.Spec.{IsNamed, text_or_idem, default_spec_idem}
use karpenter_provider_tke.NativeNode.Defaults.Machines.{
  Codec, ProviderValue, provider_spec_from_raw_extension, raw_extension_from_provider_spec,
  assign_value, set_defaults_cxm, is_cxm, set_defaults_provider, is_prepaid_or_underwrite,
}

pub relabel-ok :
    {A : Type 0} (text : String) (r : Result A) (a : A) → relabel text r ≡ ok a → r ≡ ok a
relabel-ok text (ok b) a e = e
relabel-ok text (err f) a e = cc

abbrev charge_tests : String → Bool
charge_tests c = (c == prepaid_charge_type) || (c == underwrite_charge_type)

charge_tests-default :
    (c : String) → charge_tests (text_or postpaid_by_hour_charge_type c) ≡ charge_tests c
charge_tests-default c = elim (Bool-cases (c == "")) [
  | inl blank ↦
      subst (λ x. charge_tests (text_or postpaid_by_hour_charge_type x) ≡ charge_tests x)
        (sym ((eq_iff c "").0 blank)) refl
  | inr given ↦ rw given refl
]

-- decoding what was encoded
abbrev pub RoundTrips : Codec → Type 0
RoundTrips codec =
    (spec : ProviderSpec) (raw : String)
    → codec.encode spec ≡ ok raw
    → codec.decode raw ≡ ok (some spec)

module _ (codec : Codec) (trip : RoundTrips codec) where
  -- What a value holds that the defaults leave as it is, with the charge type of another spec.
  abbrev IsStable : ProviderSpec → Option String → Type 0
  IsStable val v =
      (spec : ProviderSpec) × (provider_spec_from_raw_extension codec v ≡ ok (some spec))
      × (is_prepaid_or_underwrite codec spec ≡ is_prepaid_or_underwrite codec val)
      × (set_defaults_cxm codec v ≡ some v)

  -- A run that decodes a spec and encodes it with its defaults.
  pub cxm-encoded :
      (v : Option String) (spec : ProviderSpec) (new : String)
      → provider_spec_from_raw_extension codec v ≡ ok (some spec)
      → raw_extension_from_provider_spec codec (default_spec spec) ≡ ok new
      → set_defaults_cxm codec v ≡ assign_value codec v new
  unfolding set_defaults_cxm
  cxm-encoded v spec new d e = rw (set_defaults_cxm, d, e) refl

  pub cxm-not_encoded :
      (v : Option String) (spec : ProviderSpec) (f : Error)
      → provider_spec_from_raw_extension codec v ≡ ok (some spec)
      → raw_extension_from_provider_spec codec (default_spec spec) ≡ err f
      → set_defaults_cxm codec v ≡ some v
  unfolding set_defaults_cxm
  cxm-not_encoded v spec f d e = rw (set_defaults_cxm, d, e) refl

  pub prepaid-default :
      (val : ProviderSpec)
      → is_prepaid_or_underwrite codec (default_spec val) ≡ is_prepaid_or_underwrite codec val
  unfolding default_spec
  prepaid-default val = charge_tests-default val.instance_charge_type

  stored-IsStable :
      (val : ProviderSpec) (new : String)
      → IsNamed val.management.nameservers
      → raw_extension_from_provider_spec codec (default_spec val) ≡ ok new
      → IsStable val (some new)
  unfolding provider_spec_from_raw_extension raw_extension_from_provider_spec
  stored-IsStable val new named e =
      let encoded : codec.encode (default_spec val) ≡ ok new = relabel-ok _ _ _ e in
      let decoded : codec.decode new ≡ ok (some (default_spec val)) = trip _ _ encoded in
      let again : codec.encode (default_spec (default_spec val)) ≡ ok new =
        ap codec.encode ((default_spec_idem val).1 named) ∙ encoded in
      let found = ap (relabel "error unmarshalling providerSpec") decoded in
      (
        default_spec val,
        found,
        prepaid-default val,
        cxm-encoded (some new) (default_spec val) new found
            (ap (relabel "error marshalling providerSpec") again),
      )

  cxm-IsStable :
      (v w : Option String) (val : ProviderSpec)
      → provider_spec_from_raw_extension codec v ≡ ok (some val)
      → IsNamed val.management.nameservers
      → set_defaults_cxm codec v ≡ some w
      → IsStable val w
  cxm-IsStable v w val d named h =
      elim (Result-cases (raw_extension_from_provider_spec codec (default_spec val))) [
        | inr (f, e) ↦
            let kept = cxm-not_encoded v val f d e in
            let same : v ≡ w = some-injective v w (sym kept ∙ h) in
            subst (λ (u : Option String). IsStable val u) same (val, d, refl, kept)
        | inl (new, e) ↦ from_assigned v w val new named e (sym (cxm-encoded v val new d e) ∙ h)
      ]
    where
      from_assigned :
          (v w : Option String) (val : ProviderSpec) (new : String)
          → IsNamed val.management.nameservers
          → raw_extension_from_provider_spec codec (default_spec val) ≡ ok new
          → assign_value codec v new ≡ some w
          → IsStable val w
      from_assigned none w val new named e h = cc
      from_assigned (some old) w val new named e h =
          subst (λ (u : Option String). IsStable val u) (some-injective (some new) w h)
            (stored-IsStable val new named e)

  -- SetDefaults_ProviderSpec on a type that is set, of the two sorts.
  pub provider-cxm :
      (t : String) (v w : Option String)
      → text_or machine_type_native t ≡ t
      → is_cxm codec t ≡ true
      → set_defaults_cxm codec v ≡ some w
      → set_defaults_provider codec (record { type_name = t; value = v })
        ≡ some (record { type_name = t; value = w })
  unfolding set_defaults_provider
  provider-cxm t v w set cxm e = rw (set_defaults_provider, set, cxm, e) refl

  provider-other :
      (t : String) (v : Option String)
      → text_or machine_type_native t ≡ t
      → is_cxm codec t ≡ false
      → set_defaults_provider codec (record { type_name = t; value = v })
        ≡ some (record { type_name = t; value = v })
  unfolding set_defaults_provider
  provider-other t v set other = rw (set_defaults_provider, set, other) refl

  -- What a provider has after a run, as IsStable says of its value.
  abbrev pub IsSettled : ProviderSpec → ProviderValue → Type 0
  IsSettled val q =
      (spec : ProviderSpec) × (provider_spec_from_raw_extension codec q.value ≡ ok (some spec))
      × (is_prepaid_or_underwrite codec spec ≡ is_prepaid_or_underwrite codec val)
      × (set_defaults_provider codec q ≡ some q)

  pub provider-IsSettled :
      (p q : ProviderValue) (val : ProviderSpec)
      → provider_spec_from_raw_extension codec p.value ≡ ok (some val)
      → IsNamed val.management.nameservers
      → set_defaults_provider codec p ≡ some q
      → IsSettled val q
  unfolding set_defaults_provider
  provider-IsSettled p q val d named h =
      let t : String = text_or machine_type_native p.type_name in
      let set : text_or machine_type_native t ≡ t = text_or_idem machine_type_native p.type_name in
      elim (Bool-cases (is_cxm codec t)) [
        | inr other ↦
            subst (λ (x : ProviderValue). IsSettled val x)
              (some-injective (record p { type_name = t }) q
                (rw (set_defaults_provider, other) at h))
              (val, d, refl, provider-other t p.value set other)
        | inl cxm ↦ elim (Option-cases (set_defaults_cxm codec p.value)) [
          | inl panics ↦ cc (rw (set_defaults_provider, cxm, panics) at h)
          | inr (w, g) ↦
              let (spec, found, prepaid, again) = cxm-IsStable p.value w val d named g in
              subst (λ (x : ProviderValue). IsSettled val x)
                (some-injective (record { type_name = t; value = w }) q
                  (rw (set_defaults_provider, cxm, g) at h))
                (spec, found, prepaid, provider-cxm t w w set cxm again)
        ]
      ]
