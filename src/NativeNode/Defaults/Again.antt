-- ===== src/NativeNode/Defaults/Again.antt =====
-- Setting the defaults of a machine again.
use mathlib.Core.Option.{some-injective}
use karpenter_provider_tke.Prelude.{
  ◌≡◌, refl, sym, ap, subst, ◌∙◌, String, ◌==◌, eq_iff, eq_refl, none, some, [], ◌∷◌, if◌then◌else◌,
  Dict, lookup, insert, Error, lookup-insert, ok, err, Bool-cases, Option-cases, Result-cases, inl,
  inr,
}
use karpenter_provider_tke.NativeNode.{ProviderSpec, machine_type_native, machine_type_native_cvm}
use karpenter_provider_tke.NativeNode.Defaults.{text_or}
use karpenter_provider_tke.NativeNode.Defaults.Spec.{IsNamed, text_or_idem}
use karpenter_provider_tke.NativeNode.Defaults.Machines.{
  Codec, ProviderValue, MachineTemplate, NewMachine, provider_spec_from_raw_extension,
  set_defaults_cxm, is_cxm, set_defaults_provider, is_prepaid_or_underwrite,
  scale_down_disabled_annotation, default_runtime_root_dir, set_defaults_machine_spec, force_delete,
  default_force_delete, set_defaults_machine,
}
use karpenter_provider_tke.NativeNode.Defaults.Value.{RoundTrips, provider-IsSettled}

insert_twice : (k v : String) (m : Dict String) → insert k v (insert k v m) ≡ insert k v m
unfolding insert
insert_twice k v [] = rw (eq_refl k) refl
insert_twice k v ((j, w) ∷ m) = elim (Bool-cases (j == k)) [
  | inl same ↦ rw (same, insert, eq_refl k) refl
  | inr other ↦ rw (other, insert, other) (ap (λ r. (j, w) ∷ r) (insert_twice k v m))
]

module _ (codec : Codec) (trip : RoundTrips codec) where
  -- the annotations that SetDefaults_MachineSpec sets for a spec
  abbrev pub annotated : ProviderSpec → Dict String → Dict String
  annotated val m =
      if is_prepaid_or_underwrite codec val
      then insert (scale_down_disabled_annotation codec) "true" m
      else m

  annotated_twice :
      (val spec : ProviderSpec) (m : Dict String)
      → is_prepaid_or_underwrite codec spec ≡ is_prepaid_or_underwrite codec val
      → annotated spec (annotated val m) ≡ annotated val m
  annotated_twice val spec m same = elim (Bool-cases (is_prepaid_or_underwrite codec val)) [
    | inl prepaid ↦
        rw (same, prepaid) (insert_twice (scale_down_disabled_annotation codec) "true" m)
    | inr other ↦ rw (same, other) refl
  ]

  pub spec-decoded :
      (m : MachineTemplate) (val : ProviderSpec) (q : ProviderValue)
      → provider_spec_from_raw_extension codec m.provider.value ≡ ok (some val)
      → set_defaults_provider codec m.provider ≡ some q
      → set_defaults_machine_spec codec m
        ≡ some (record {
          annotations = annotated val m.annotations;
          runtime_root_dir = default_runtime_root_dir codec m.runtime_root_dir;
          provider = q;
        })
  unfolding set_defaults_machine_spec
  spec-decoded m val q d e = rw (set_defaults_machine_spec, d, e) refl

  spec-not_decoded :
      (m : MachineTemplate) (f : Error)
      → provider_spec_from_raw_extension codec m.provider.value ≡ err f
      → set_defaults_machine_spec codec m
        ≡ some (record m { runtime_root_dir = default_runtime_root_dir codec m.runtime_root_dir })
  unfolding set_defaults_machine_spec
  spec-not_decoded m f d = rw (set_defaults_machine_spec, d) refl

  pub machine_spec_idem :
      (m n : MachineTemplate)
      → ((val : ProviderSpec)
          → provider_spec_from_raw_extension codec m.provider.value ≡ ok (some val)
          → IsNamed val.management.nameservers)
      → set_defaults_machine_spec codec m ≡ some n
      → set_defaults_machine_spec codec n ≡ some n
  unfolding set_defaults_machine_spec
  machine_spec_idem m n named h =
      let root = text_or_idem "/var/lib/containerd" m.runtime_root_dir in
      elim (Result-cases (provider_spec_from_raw_extension codec m.provider.value)) [
        | inr (f, d) ↦
            let rooted : MachineTemplate = record m {
              runtime_root_dir = default_runtime_root_dir codec m.runtime_root_dir;
            } in
            let run = spec-not_decoded m f d in
            subst (λ (x : MachineTemplate). set_defaults_machine_spec codec x ≡ some x)
              (some-injective rooted n (sym run ∙ h))
              (spec-not_decoded rooted f d ∙ (λ i. some (record m { runtime_root_dir = root i })))
        | inl (none, d) ↦ cc (rw (set_defaults_machine_spec, d) at h)
        | inl (some val, d) ↦ elim (Option-cases (set_defaults_provider codec m.provider)) [
          | inl panics ↦ cc (rw (set_defaults_machine_spec, d, panics) at h)
          | inr (q, g) ↦
              let after : MachineTemplate = record {
                annotations = annotated val m.annotations;
                runtime_root_dir = default_runtime_root_dir codec m.runtime_root_dir;
                provider = q;
              } in
              let run = spec-decoded m val q d g in
              let (spec, found, same, again) =
                provider-IsSettled codec trip m.provider q val d (named val d) g in
              subst (λ (x : MachineTemplate). set_defaults_machine_spec codec x ≡ some x)
                (some-injective after n (sym run ∙ h))
                (spec-decoded after spec q found again ∙ (λ i. some (record {
                  annotations = annotated_twice val spec m.annotations same i;
                  runtime_root_dir = root i;
                  provider = q;
                })))
        ]
      ]

  is_native_cvm-default :
      (t : String)
      → (text_or machine_type_native t == machine_type_native_cvm) ≡ (t == machine_type_native_cvm)
  is_native_cvm-default t = elim (Bool-cases (t == "")) [
    | inl blank ↦
        subst
          (λ x.
            (text_or machine_type_native x == machine_type_native_cvm)
            ≡ (x == machine_type_native_cvm))
          (sym ((eq_iff t "").0 blank)) refl
    | inr given ↦ rw given refl
  ]

  provider-type :
      (p q : ProviderValue)
      → set_defaults_provider codec p ≡ some q
      → text_or machine_type_native p.type_name ≡ q.type_name
  unfolding set_defaults_provider
  provider-type p q h = elim (Bool-cases (is_cxm codec (text_or machine_type_native p.type_name))) [
    | inr other ↦
        ap (λ (x : ProviderValue). x.type_name)
          (some-injective _ q (rw (set_defaults_provider, other) at h))
    | inl cxm ↦ elim (Option-cases (set_defaults_cxm codec p.value)) [
      | inl panics ↦ cc (rw (set_defaults_provider, cxm, panics) at h)
      | inr (w, g) ↦
          ap (λ (x : ProviderValue). x.type_name)
            (some-injective _ q (rw (set_defaults_provider, cxm, g) at h))
    ]
  ]

  machine_spec-type :
      (m n : MachineTemplate)
      → set_defaults_machine_spec codec m ≡ some n
      → (n.provider.type_name == machine_type_native_cvm)
        ≡ (m.provider.type_name == machine_type_native_cvm)
  unfolding set_defaults_machine_spec
  machine_spec-type m n h =
      elim (Result-cases (provider_spec_from_raw_extension codec m.provider.value)) [
        | inr (f, d) ↦
            ap (λ (x : MachineTemplate). x.provider.type_name == machine_type_native_cvm)
              (sym (some-injective _ n (sym (spec-not_decoded m f d) ∙ h)))
        | inl (none, d) ↦ cc (rw (set_defaults_machine_spec, d) at h)
        | inl (some val, d) ↦ elim (Option-cases (set_defaults_provider codec m.provider)) [
          | inl panics ↦ cc (rw (set_defaults_machine_spec, d, panics) at h)
          | inr (q, g) ↦
              ap (λ (x : MachineTemplate). x.provider.type_name == machine_type_native_cvm)
                (sym (some-injective _ n (sym (spec-decoded m val q d g) ∙ h)))
              ∙ ap (λ t. t == machine_type_native_cvm) (sym (provider-type m.provider q g))
              ∙ is_native_cvm-default m.provider.type_name
        ]
      ]

  force_delete_twice :
      (s t : String) (m : Dict String)
      → (t == machine_type_native_cvm) ≡ (s == machine_type_native_cvm)
      → default_force_delete codec t (default_force_delete codec s m)
        ≡ default_force_delete codec s m
  unfolding default_force_delete
  force_delete_twice s t m same = elim (Bool-cases (s == machine_type_native_cvm)) [
    | inr other ↦ rw (default_force_delete, same, other) refl
    | inl cvm ↦ elim (Option-cases (lookup (force_delete codec) m)) [
      | inr (v, found) ↦
          let once : default_force_delete codec s m ≡ m =
            rw (default_force_delete, cvm, found) refl in
          let kept : default_force_delete codec t m ≡ m =
            rw (default_force_delete, same, cvm, found) refl in
          ap (default_force_delete codec t) once ∙ kept ∙ sym once
      | inl missing ↦
          let there : lookup (force_delete codec) (insert (force_delete codec) "true" m)
              ≡ some "true" =
            lookup-insert (force_delete codec) (force_delete codec) "true" m in
          let added : Dict String = insert (force_delete codec) "true" m in
          let once : default_force_delete codec s m ≡ added =
            rw (default_force_delete, cvm, missing) refl in
          let kept : default_force_delete codec t added ≡ added =
            rw (default_force_delete, same, cvm, there) refl in
          ap (default_force_delete codec t) once ∙ kept ∙ sym once
    ]
  ]

  -- If decoding gives back each provider spec that could be encoded, and a provider spec that the
  -- machine's value decodes to has no nameservers or one that is not the empty text, then setting
  -- the defaults of a machine that did not panic, a second time, changes nothing and does not
  -- panic.
  pub set_defaults_machine_idem :
      (m n : NewMachine)
      → ((val : ProviderSpec)
          → provider_spec_from_raw_extension codec m.spec.provider.value ≡ ok (some val)
          → IsNamed val.management.nameservers)
      → set_defaults_machine codec m ≡ some n
      → set_defaults_machine codec n ≡ some n
  unfolding set_defaults_machine
  set_defaults_machine_idem m n named h =
      elim (Option-cases (set_defaults_machine_spec codec m.spec)) [
        | inl panics ↦ cc (rw (set_defaults_machine, panics) at h)
        | inr (s, e) ↦
            let again = machine_spec_idem m.spec s named e in
            let name = text_or_idem "mc-" m.generate_name in
            let force =
              force_delete_twice m.spec.provider.type_name s.provider.type_name m.annotations
                (machine_spec-type m.spec s e) in
            subst (λ (x : NewMachine). set_defaults_machine codec x ≡ some x)
              (some-injective _ n (rw (set_defaults_machine, e) at h))
              (rw (set_defaults_machine, again)
                (λ i. some (record { generate_name = name i; annotations = force i; spec = s })))
      ]
