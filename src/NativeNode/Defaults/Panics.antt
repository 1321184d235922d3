-- ===== src/NativeNode/Defaults/Panics.antt =====
-- When the defaults of a machine or of a machine set panic.
use mathlib.Core.Option
use mathlib.Core.Option.{some-injective}
use karpenter_provider_tke.Prelude.{
  ◌≡◌, ◌↔◌, ◌⊎◌, refl, ap, ◌∙◌, String, true, Option, none, some, Dict, ok, is_ok, Bool-cases,
  Result-cases, inl, inr,
}
use karpenter_provider_tke.NativeNode.{ProviderSpec, machine_type_native}
use karpenter_provider_tke.NativeNode.Defaults.{text_or, no_spec, default_spec}
use karpenter_provider_tke.NativeNode.Defaults.Machines.{
  Codec, ProviderValue, MachineTemplate, NewMachine, provider_spec_from_raw_extension,
  raw_extension_from_provider_spec, MachineSet, typed_template, set_defaults_machine_set,
  set_defaults_cxm, is_cxm, set_defaults_provider, set_defaults_machine_spec, set_defaults_machine,
}

module _ (codec : Codec) where
  -- The value is the text of nil; or there is no value, the type is one whose value has defaults, and
  -- the provider spec of the defaults alone can be encoded.
  abbrev pub Panics : MachineTemplate → Type 0
  Panics m =
      ((raw : String) × (m.provider.value ≡ some raw) × (codec.decode raw ≡ ok none))
      ⊎ ((m.provider.value ≡ none)
          × (is_cxm codec (text_or machine_type_native m.provider.type_name) ≡ true)
          × (is_ok (codec.encode (default_spec no_spec)) ≡ true))

  some-ne-none : {A : Type 0} (o : Option A) (a : A) → o ≡ some a → o ≡ none → ⊥
  some-ne-none o a e h = cc

  -- A value that is there can be written to.
  provider-runs :
      (t raw : String) (val : ProviderSpec)
      → codec.decode raw ≡ ok (some val)
      → (q : ProviderValue) × (set_defaults_provider codec
            (record { type_name = t; value = some raw })
          ≡ some q)
  unfolding set_defaults_provider set_defaults_cxm provider_spec_from_raw_extension
  provider-runs t raw val d =
      let named : String = text_or machine_type_native t in
      elim (Bool-cases (is_cxm codec named)) [
        | inr other ↦
            (record { type_name = named; value = some raw }, rw (set_defaults_provider, other) refl)
        | inl cxm ↦
            elim (Result-cases (raw_extension_from_provider_spec codec (default_spec val))) [
              | inr (f, e) ↦ (
                record { type_name = named; value = some raw },
                rw (set_defaults_provider, cxm, set_defaults_cxm, d, e) refl,
              )
              | inl (new, e) ↦ (
                record { type_name = named; value = some new },
                rw (set_defaults_provider, cxm, set_defaults_cxm, d, e) refl,
              )
            ]
      ]

  -- Without a value it is read as the empty spec, and the new value cannot be stored.
  provider_without_value :
      (t : String)
      → (set_defaults_provider codec (record { type_name = t; value = none }) ≡ none) ↔ (
          (is_cxm codec (text_or machine_type_native t) ≡ true)
          × (is_ok (codec.encode (default_spec no_spec)) ≡ true))
  unfolding set_defaults_provider set_defaults_cxm provider_spec_from_raw_extension
      raw_extension_from_provider_spec
  provider_without_value t = elim (Bool-cases (is_cxm codec (text_or machine_type_native t))) [
    | inr other ↦ rw (set_defaults_provider, other) (λ e. cc, λ (a, b). cc)
    | inl cxm ↦ elim (Result-cases (codec.encode (default_spec no_spec))) [
      | inr (f, e) ↦ rw (set_defaults_provider, cxm, set_defaults_cxm, e) (λ h. cc, λ (a, b). cc)
      | inl (new, e) ↦
          rw (set_defaults_provider, cxm, set_defaults_cxm, e) (λ h. (refl, refl), λ h. refl)
    ]
  ]

  map-none : {A B : Type 0} (f : A → B) (o : Option A) → (Option.map f o ≡ none) ↔ (o ≡ none)
  map-none f none = (λ e. refl, λ e. refl)
  map-none f (some a) = (λ e. cc, λ e. cc)

  abbrev template : Dict String → String → String → Option String → MachineTemplate
  template annotations root t v = record {
    annotations = annotations;
    runtime_root_dir = root;
    provider = record { type_name = t; value = v };
  }

  null_value :
      (annotations : Dict String) (root t raw : String)
      → Panics (template annotations root t (some raw))
      → codec.decode raw ≡ ok none
  null_value annotations root t raw (inl (r, same, null)) =
      ap codec.decode (some-injective raw r same) ∙ null
  null_value annotations root t raw (inr (gone, cxm, encoded)) = cc

  by_value :
      (annotations : Dict String) (root t : String) (v : Option String)
      → (set_defaults_machine_spec codec (template annotations root t v) ≡ none)
        ↔ Panics (template annotations root t v)
  unfolding set_defaults_machine_spec provider_spec_from_raw_extension
  by_value annotations root t none =
      let below = provider_without_value t in
      (
        λ h. let (cxm, encoded) = below.0 ((map-none _ _).0 h) in inr (refl, cxm, encoded),
        λ p. elim p [
          | inl (raw, there, decoded) ↦ cc
          | inr (gone, cxm, encoded) ↦ (map-none _ _).1 (below.1 (cxm, encoded))
        ],
      )
  by_value annotations root t (some raw) = elim (Result-cases (codec.decode raw)) [
    | inr (f, d) ↦
        rw (set_defaults_machine_spec, d) (λ h. cc, λ p. cc (null_value annotations root t raw p))
    | inl (none, d) ↦ rw (set_defaults_machine_spec, d) (λ h. inl (raw, refl, d), λ p. refl)
    | inl (some val, d) ↦
        let (q, runs) = provider-runs t raw val d in
        rw (set_defaults_machine_spec, d, runs)
          (λ h. cc, λ p. cc (null_value annotations root t raw p))
  ]

  -- The defaults of a machine, and those of a machine set, panic exactly if the provider's value
  -- decodes to nil, or there is no value, the type of the machine, or the one that the set gives
  -- its machines, is empty, Native or NativeCVM, and the defaults of the empty provider spec can
  -- be encoded.
  pub set_defaults-Panics :
      (m : NewMachine) (s : MachineSet)
      → ((set_defaults_machine codec m ≡ none) ↔ Panics m.spec)
        × ((set_defaults_machine_set codec s ≡ none) ↔ Panics (typed_template codec s))
  unfolding set_defaults_machine set_defaults_machine_set
  set_defaults-Panics m s =
      let a =
        by_value m.spec.annotations m.spec.runtime_root_dir m.spec.provider.type_name
          m.spec.provider.value in
      let t = typed_template codec s in
      let b = by_value t.annotations t.runtime_root_dir t.provider.type_name t.provider.value in
      (
        (λ h. a.0 ((map-none _ _).0 h), λ p. (map-none _ _).1 (a.1 p)),
        (λ h. b.0 ((map-none _ _).0 h), λ p. (map-none _ _).1 (b.1 p)),
      )
