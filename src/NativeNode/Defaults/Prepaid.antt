-- ===== src/NativeNode/Defaults/Prepaid.antt =====
-- staging/nativenode/v1beta1/util.go: IsPrepaid, and what the defaults leave of it.
use mathlib.Core.Option
use mathlib.Core.Option.{some-injective}
use karpenter_provider_tke.Prelude.{
  ◌≡◌, refl, sym, ap, ◌∙◌, String, Bool, false, Option, none, some, Result, ok, err, plain, relabel,
  Bool-cases, Result-cases, inl, inr,
}
use karpenter_provider_tke.NativeNode.{ProviderSpec, machine_type_native}
use karpenter_provider_tke.NativeNode.Defaults.{text_or, default_spec}
use karpenter_provider_tke.NativeNode.Defaults.Machines.{
  Codec, ProviderValue, MachineTemplate, NewMachine, MachineSet, provider_spec_from_raw_extension,
  raw_extension_from_provider_spec, assign_value, set_defaults_cxm, is_cxm, set_defaults_provider,
  is_prepaid_or_underwrite, set_defaults_machine_spec, set_defaults_machine,
  set_defaults_machine_set, typed_template,
}
use karpenter_provider_tke.NativeNode.Defaults.Value.{
  RoundTrips, relabel-ok, prepaid-default, cxm-encoded, cxm-not_encoded,
}

-- what IsPrepaid is given: a pointer of one of three types, or of another, or no pointer
pub data Object : Type 0 where
  machine : NewMachine → Object
  machine_set : MachineSet → Object
  provider_spec : Option ProviderSpec → Object
  other_pointer no_pointer : Object

module _ (codec : Codec) where
  -- the spec that is left when the error is dropped
  abbrev spec_or_nil : Result (Option ProviderSpec) → Option ProviderSpec
  spec_or_nil (ok o) = o
  spec_or_nil (err e) = none

  abbrev is_prepaid_spec : Option ProviderSpec → Bool
  is_prepaid_spec none = false
  is_prepaid_spec (some spec) = is_prepaid_or_underwrite codec spec

  abbrev is_prepaid_value : Option String → Bool
  is_prepaid_value value =
      is_prepaid_spec (spec_or_nil (provider_spec_from_raw_extension codec value))

  -- IsPrepaid of util.go
  unfoldable pub is_prepaid : Object → Result Bool
  is_prepaid (machine m) = ok (is_prepaid_value m.spec.provider.value)
  is_prepaid (machine_set s) = ok (is_prepaid_value s.template.provider.value)
  is_prepaid (provider_spec spec) = ok (is_prepaid_spec spec)
  is_prepaid other_pointer = ok false
  is_prepaid no_pointer = err (plain "input object must be a pointer")

module _ (codec : Codec) (trip : RoundTrips codec) where
  assigned-prepaid :
      (v w : Option String) (spec : ProviderSpec) (new : String)
      → provider_spec_from_raw_extension codec v ≡ ok (some spec)
      → raw_extension_from_provider_spec codec (default_spec spec) ≡ ok new
      → assign_value codec v new ≡ some w
      → is_prepaid_value codec w ≡ is_prepaid_value codec v
  unfolding provider_spec_from_raw_extension raw_extension_from_provider_spec
  assigned-prepaid none w spec new d f a = cc
  assigned-prepaid (some old) w spec new d f a =
      let decoded : codec.decode new ≡ ok (some (default_spec spec)) =
        trip _ _ (relabel-ok _ _ _ f) in
      let found = ap (relabel "error unmarshalling providerSpec") decoded in
      ap (is_prepaid_value codec) (sym (some-injective (some new) w a))
      ∙ ap (λ r. is_prepaid_spec codec (spec_or_nil codec r)) found
      ∙ prepaid-default codec trip spec
      ∙ ap (λ r. is_prepaid_spec codec (spec_or_nil codec r)) (sym d)

  value-prepaid :
      (v w : Option String)
      → set_defaults_cxm codec v ≡ some w
      → is_prepaid_value codec w ≡ is_prepaid_value codec v
  unfolding set_defaults_cxm
  value-prepaid v w h = elim (Result-cases (provider_spec_from_raw_extension codec v)) [
    | inr (e, d) ↦
        ap (is_prepaid_value codec) (some-injective w v (sym h ∙ rw (set_defaults_cxm, d) refl))
    | inl (none, d) ↦ cc (rw (set_defaults_cxm, d) at h)
    | inl (some spec, d) ↦
        elim (Result-cases (raw_extension_from_provider_spec codec (default_spec spec))) [
          | inr (e, f) ↦
              ap (is_prepaid_value codec)
                (some-injective w v (sym h ∙ cxm-not_encoded codec trip v spec e d f))
          | inl (new, f) ↦
              assigned-prepaid v w spec new d f (sym (cxm-encoded codec trip v spec new d f) ∙ h)
        ]
  ]

  -- the value under an Option.map
  mapped {ℓ κ} :
      {A : Type ℓ} {B : Type κ} (f : A → B) (o : Option A) (b : B)
      → Option.map f o ≡ some b
      → (a : A) × (o ≡ some a) × (f a ≡ b)
  mapped f none b h = cc
  mapped f (some a) b h = (a, refl, some-injective (f a) b h)

  provider-prepaid :
      (p q : ProviderValue)
      → set_defaults_provider codec p ≡ some q
      → is_prepaid_value codec q.value ≡ is_prepaid_value codec p.value
  unfolding set_defaults_provider
  provider-prepaid p q h =
      let t : String = text_or machine_type_native p.type_name in
      elim (Bool-cases (is_cxm codec t)) [
        | inr other ↦
            let same =
              some-injective (record p { type_name = t }) q
                (rw (set_defaults_provider, other) at h) in
            ap (λ (x : ProviderValue). is_prepaid_value codec x.value) (sym same)
        | inl cxm ↦
            let found =
              mapped (λ (v : Option String). record { type_name = t; value = v })
                (set_defaults_cxm codec p.value) q (rw (set_defaults_provider, cxm) at h) in
            ap (λ (x : ProviderValue). is_prepaid_value codec x.value) (sym found.2)
            ∙ value-prepaid p.value found.0 found.1
      ]

  template-prepaid :
      (m n : MachineTemplate)
      → set_defaults_machine_spec codec m ≡ some n
      → is_prepaid_value codec n.provider.value ≡ is_prepaid_value codec m.provider.value
  unfolding set_defaults_machine_spec
  template-prepaid m n h =
      elim (Result-cases (provider_spec_from_raw_extension codec m.provider.value)) [
        | inr (e, d) ↦
            ap (λ (x : MachineTemplate). is_prepaid_value codec x.provider.value)
              (sym (some-injective _ n (rw (set_defaults_machine_spec, d) at h)))
        | inl (none, d) ↦ cc (rw (set_defaults_machine_spec, d) at h)
        | inl (some val, d) ↦
            let found =
              mapped _ (set_defaults_provider codec m.provider) n
                (rw (set_defaults_machine_spec, d) at h) in
            ap (λ (x : MachineTemplate). is_prepaid_value codec x.provider.value) (sym found.2)
            ∙ provider-prepaid m.provider found.0 found.1
      ]

  -- The defaults of a machine, of a machine set, and of a provider spec leave what IsPrepaid says of it as it was.
  pub is_prepaid-set_defaults :
      ((m n : NewMachine)
        → set_defaults_machine codec m ≡ some n
        → is_prepaid codec (machine n) ≡ is_prepaid codec (machine m))
      × ((s u : MachineSet)
          → set_defaults_machine_set codec s ≡ some u
          → is_prepaid codec (machine_set u) ≡ is_prepaid codec (machine_set s))
      × ((spec : ProviderSpec)
          → is_prepaid codec (provider_spec (some (default_spec spec)))
            ≡ is_prepaid codec (provider_spec (some spec)))
  unfolding set_defaults_machine set_defaults_machine_set is_prepaid
  is_prepaid-set_defaults = (
    λ m n h.
        let found = mapped _ (set_defaults_machine_spec codec m.spec) n h in
        ap (λ (x : NewMachine). is_prepaid codec (machine x)) (sym found.2)
        ∙ ap ok (template-prepaid m.spec found.0 found.1),
    λ s u h.
        let found = mapped _ (set_defaults_machine_spec codec (typed_template codec s)) u h in
        ap (λ (x : MachineSet). is_prepaid codec (machine_set x)) (sym found.2)
        ∙ ap ok (template-prepaid (typed_template codec s) found.0 found.1),
    λ spec. ap ok (prepaid-default codec trip spec),
  )
