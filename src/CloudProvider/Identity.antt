-- ===== src/CloudProvider/Identity.antt =====
-- What a machine becomes for Karpenter.
use karpenter_provider_tke.Prelude.{
  is_some, all_of, arith, ℕ, ◌≡◌, refl, sym, subst, ap, ap₂, ◌∙◌, String, ◌==◌, Bool, true, false,
  not, ◌&&◌, Option, none, some, List, [], ℤ, Result, ok, err, ◌>>=◌, is_ok, lookup, lookup-insert,
  insert, text_at, Bool-cases, Option-cases, Result-cases, inl, inr,
}
use karpenter_provider_tke.Labels
use karpenter_provider_tke.Strconv.{◌<>◌, atoi}
use karpenter_provider_tke.Kube.{Machine, NodeClaim, text_of}
use karpenter_provider_tke.Scheduling.{
  Scheduling, Offering, InstanceType, Quantity, Overhead, ResourceList,
}
use karpenter_provider_tke.Zone.{ZoneProvider}
use karpenter_provider_tke.GarbageCollection.{owned_machine, is_managed}
use karpenter_provider_tke.InstanceType.Level.{Float64}
use karpenter_provider_tke.InstanceType.Capacity.{InstanceTypeQuotaItem, PodLimitsInstance}
use karpenter_provider_tke.InstanceType.Overhead.{
  Quantities, Percentages, kube_reserved_resources, system_reserved_resources, eviction_threshold,
}
use karpenter_provider_tke.InstanceType.New.{Cluster, new_instance_type}
use karpenter_provider_tke.Machines.Annotations.{set_if, resource_list_from_annotations, texts}
use karpenter_provider_tke.Machines.Annotations.Parsed.{
  parses, parsed, set_parsed-parses, lookup-set_parsed,
}
use karpenter_provider_tke.CloudProvider.Conversion.{
  Karpenter, Decoders, or_error, resources_of, phase_deleting, resolve_machine_to_instance_type,
  overhead_of, with_annotations, machine_to_nodeclaim, nodeclaim_of, annotations_of,
}

is_ok-bind {ℓ κ} :
    {A : Type ℓ} {B : Type κ} (r : Result A) (f : A → Result B) (b : Bool)
    → ((a : A) → is_ok (f a) ≡ b)
    → is_ok (r >>= f) ≡ (is_ok r && b)
is_ok-bind (ok a) f b h = h a
is_ok-bind (err e) f b h = refl

-- the same, where the continuation may use what the first result is
is_ok-known {ℓ κ} :
    {A : Type ℓ} {B : Type κ} (r : Result A) (f : A → Result B) (b : Bool)
    → ((a : A) → r ≡ ok a → is_ok (f a) ≡ b)
    → is_ok (r >>= f) ≡ (is_ok r && b)
is_ok-known (ok a) f b h = h a refl
is_ok-known (err e) f b h = refl

is_ok-or_error {ℓ} :
    {A : Type ℓ} (text : String) (o : Option A) → is_ok (or_error text o) ≡ is_some o
is_ok-or_error text none = refl
is_ok-or_error text (some a) = refl

-- one step of a chain that asks for a value
is_ok-step {ℓ κ} :
    {A : Type ℓ} {B : Type κ} (text : String) (o : Option A) (f : A → Result B) (b : Bool)
    → ((a : A) → is_ok (f a) ≡ b)
    → is_ok (or_error text o >>= f) ≡ (is_some o && b)
is_ok-step text o f b h =
    is_ok-bind (or_error text o) f b h ∙ ap (λ a. a && b) (is_ok-or_error text o)

ok-injective {ℓ} : {A : Type ℓ} {a b : A} → ok a ≡ ok b → a ≡ b
ok-injective h = cc

and-true : (b : Bool) → (b && true) ≡ b
and-true true = refl
and-true false = refl

-- the same, where the value is there
is_ok-sure {ℓ κ} :
    {A : Type ℓ} {B : Type κ} (text : String) (o : Option A) (f : A → Result B) (b : Bool)
    → is_some o ≡ true
    → ((a : A) → is_ok (f a) ≡ b)
    → is_ok (or_error text o >>= f) ≡ b
is_ok-sure text none f b e h = cc
is_ok-sure text (some a) f b e h = h a

-- Without overrides of the kubelet, NewInstanceType does not panic.
new_instance_type-is_some :
    (s : Scheduling) (fl : Float64) (overhead : fl.F) (qs : Quantities) (ps : Percentages fl)
    (storage : ℤ) (item : InstanceTypeQuotaItem) (above : Bool)
    (offerings : List (Offering s.Requirements)) (limits : List PodLimitsInstance)
    (cls : Option Cluster)
    → is_some (new_instance_type s fl overhead qs ps storage item above offerings limits cls) ≡ true
unfolding new_instance_type kube_reserved_resources system_reserved_resources eviction_threshold
new_instance_type-is_some s fl overhead qs ps storage item above offerings limits cls = refl

-- MustParse panics on none of the texts that resourceListFromAnnotations finds.
abbrev pub is_parsable : Decoders → String → Machine → Bool
is_parsable d group m =
    all_of (λ (e : String × Option String). parses d.parse_quantity e.1) (texts group m.annotations)

resources_of-is_parsable :
    (d : Decoders) (group : String) (m : Machine)
    → is_ok (resources_of d group m) ≡ is_parsable d group m
unfolding resource_list_from_annotations
resources_of-is_parsable d group m =
    is_ok-or_error "panic" (resource_list_from_annotations d.parse_quantity group m.annotations)
    ∙ set_parsed-parses d.parse_quantity (texts group m.annotations) []

overhead_of-is_parsable :
    (d : Decoders) (m : Machine)
    → is_ok (overhead_of d m) ≡ (
        is_parsable d Labels.kube_reserved_group m
        && (is_parsable d Labels.system_reserved_group m
            && is_parsable d Labels.eviction_threshold_group m))
unfolding overhead_of
overhead_of-is_parsable d m =
    is_ok-bind (resources_of d Labels.kube_reserved_group m) _ _ (λ kube.
      is_ok-bind (resources_of d Labels.system_reserved_group m) _ _ (λ system.
        is_ok-bind (resources_of d Labels.eviction_threshold_group m) _ true (λ eviction. refl)
        ∙ and-true _))
    ∙ ap₂ (λ a b. a && b) (resources_of-is_parsable d Labels.kube_reserved_group m)
        (ap₂ (λ a b. a && b) (resources_of-is_parsable d Labels.system_reserved_group m)
          (resources_of-is_parsable d Labels.eviction_threshold_group m))

or_error-some :
    {A : Type 0} (text : String) (o : Option A) (a : A) → or_error text o ≡ ok a → o ≡ some a
or_error-some text none a h = cc
or_error-some text (some b) a h = ap some (ok-injective h)

is_some-parsed :
    (parse : String → Option Quantity) (o : Option String)
    → parses parse o ≡ true
    → is_some (elim (parsed parse o) [ none ↦ none | some w ↦ some w ]) ≡ is_some o
is_some-parsed parse none h = refl
is_some-parsed parse (some t) h = elim (Option-cases (parse t)) [
  | inl e ↦ cc (rw e at h)
  | inr (q, e) ↦ rw e refl
]

module _ (s : Scheduling) (k : Karpenter s) (d : Decoders) (zones : ZoneProvider) where
  cpu_is_some :
      (group : String) (m : Machine) (r : ResourceList)
      → resource_list_from_annotations d.parse_quantity group m.annotations ≡ some r
      → is_some (lookup Labels.resource_cpu r)
        ≡ is_some (lookup (group <> Labels.annotation_cpu) m.annotations)
  unfolding resource_list_from_annotations lookup
  cpu_is_some group m r h =
      let all : is_parsable d group m ≡ true =
        sym (set_parsed-parses d.parse_quantity (texts group m.annotations) []) ∙ rw h refl in
      ap is_some
        (lookup-set_parsed d.parse_quantity Labels.resource_cpu (texts group m.annotations) [] r h)
      ∙ is_some-parsed d.parse_quantity (lookup (group <> Labels.annotation_cpu) m.annotations)
          (ground (arith, all))

  memory_is_some :
      (group : String) (m : Machine) (r : ResourceList)
      → resource_list_from_annotations d.parse_quantity group m.annotations ≡ some r
      → is_some (lookup Labels.resource_memory r)
        ≡ is_some (lookup (group <> Labels.annotation_memory) m.annotations)
  unfolding resource_list_from_annotations lookup
  memory_is_some group m r h =
      let all : is_parsable d group m ≡ true =
        sym (set_parsed-parses d.parse_quantity (texts group m.annotations) []) ∙ rw h refl in
      ap is_some (
        lookup-set_parsed d.parse_quantity Labels.resource_memory (texts group m.annotations) [] r
          h)
      ∙ is_some-parsed d.parse_quantity (lookup (group <> Labels.annotation_memory) m.annotations)
          (ground (arith, all))

  -- the capacities that a machine must have annotated
  abbrev has_capacity : Machine → Bool
  has_capacity m =
      is_some (lookup (Labels.capacity_group <> Labels.annotation_cpu) m.annotations)
      && is_some (lookup (Labels.capacity_group <> Labels.annotation_memory) m.annotations)

  -- the labels, the price and the capacities of a machine that are needed
  abbrev has_numbers : Machine → Bool
  has_numbers m =
      is_some (atoi (text_at Labels.label_instance_cpu m.labels))
      && (is_some (atoi (text_at Labels.label_instance_memory_gb m.labels))
          && (is_some (d.parse_price (text_at Labels.annotation_unit_price m.annotations))
              && has_capacity m))

  -- the three groups of the overhead
  abbrev has_overhead : Machine → Bool
  has_overhead m =
      is_parsable d Labels.kube_reserved_group m
      && (is_parsable d Labels.system_reserved_group m
          && is_parsable d Labels.eviction_threshold_group m)

  -- what a machine must carry to be understood
  abbrev pub is_readable : Machine → Bool
  is_readable m =
      is_ok (d.instance_type_of m.raw_spec)
      && (is_parsable d Labels.capacity_group m && (has_overhead m && has_numbers m))

  with_annotations-is_ok :
      (m : Machine) (ty : String) (capacity : ResourceList) (overhead : Overhead)
      (it : InstanceType s.Requirements)
      → resources_of d Labels.capacity_group m ≡ ok capacity
      → is_ok (with_annotations s k d zones m ty capacity overhead it) ≡ has_capacity m
  unfolding with_annotations
  with_annotations-is_ok m ty capacity overhead it found =
      let parsed_as =
        or_error-some "panic"
          (resource_list_from_annotations d.parse_quantity Labels.capacity_group m.annotations)
          capacity found in
      is_ok-step _ (lookup Labels.resource_cpu capacity) _ _ (λ cpu.
        is_ok-step _ (lookup Labels.resource_memory capacity) _ true (λ memory. refl) ∙ and-true _)
      ∙ ap₂ (λ a b. a && b) (cpu_is_some Labels.capacity_group m capacity parsed_as)
          (memory_is_some Labels.capacity_group m capacity parsed_as)

  resolve_lem :
      (m : Machine) → is_ok (resolve_machine_to_instance_type s k d zones m) ≡ is_readable m
  unfolding resolve_machine_to_instance_type
  resolve_lem m = is_ok-bind (d.instance_type_of m.raw_spec) _ _ λ ty.
      is_ok-known (resources_of d Labels.capacity_group m) _ _ (λ capacity found.
        is_ok-bind (overhead_of d m) _ _ (λ overhead.
          is_ok-step _ (atoi (text_at Labels.label_instance_cpu m.labels)) _ _ λ cpu.
            is_ok-step _ (atoi (text_at Labels.label_instance_memory_gb m.labels)) _ _ λ memory.
              is_ok-step _ (d.parse_price (text_at Labels.annotation_unit_price m.annotations)) _ _
                λ price.
                  is_ok-sure _ _ _ _ (new_instance_type-is_some s d.fl _ _ _ _ _ _ _ _ _)
                    (λ it. with_annotations-is_ok m ty capacity overhead it found))
        ∙ ap (λ b. b && has_numbers m) (overhead_of-is_parsable d m))
      ∙ ap (λ b. b && (has_overhead m && has_numbers m))
          (resources_of-is_parsable d Labels.capacity_group m)

  -- lemma
  pub machine_to_nodeclaim-is_readable :
      (now : ℕ) (m : Machine) → is_ok (machine_to_nodeclaim s k d zones now m) ≡ is_readable m
  unfolding machine_to_nodeclaim
  machine_to_nodeclaim-is_readable now m =
      elim (Result-cases (resolve_machine_to_instance_type s k d zones m)) [
        | inl (it, e) ↦ rw (machine_to_nodeclaim, e) (sym (ap is_ok e) ∙ resolve_lem m)
        | inr (f, e) ↦ rw (machine_to_nodeclaim, e) (sym (ap is_ok e) ∙ resolve_lem m)
      ]

  abbrev pub HasIdentity : Machine → NodeClaim → Type 0
  HasIdentity m nc =
      (nc.name ≡ "")
      × (nc.provider_id ≡ text_of m.provider_id)
      × (nc.created ≡ m.created)
      × (owned_machine nc ≡ m.name)
      × (is_managed nc ≡ (
          not (text_at Labels.annotation_managed_by m.annotations == "")
          && not (text_of m.phase == phase_deleting)))

  managed_lem :
      (m : Machine)
      → text_at Labels.annotation_managed_by (annotations_of s k d zones m)
        ≡ text_at Labels.annotation_managed_by m.annotations
  unfolding annotations_of lookup insert
  managed_lem m = elim (Option-cases (lookup Labels.annotation_managed_by m.annotations)) [
    | inl e ↦ rw (annotations_of, e) (sym (ap text_of e))
    | inr (v, e) ↦ rw (annotations_of, e) (sym (ap text_of e))
  ]

  owned_lem :
      (m : Machine)
      → text_at Labels.annotation_owned_machine (annotations_of s k d zones m) ≡ m.name
  unfolding annotations_of
  owned_lem m = ap text_of (
      lookup-insert Labels.annotation_owned_machine Labels.annotation_owned_machine m.name (
        set_if Labels.annotation_managed_by (lookup Labels.annotation_managed_by m.annotations) []))

  nodeclaim_of-HasIdentity :
      (now : ℕ) (m : Machine) (it : InstanceType s.Requirements)
      → HasIdentity m (nodeclaim_of s k d zones now m it)
  unfolding nodeclaim_of is_managed
  nodeclaim_of-HasIdentity now m it = (
    refl,
    refl,
    refl,
    owned_lem m,
    rw (managed_lem m) (elim (Bool-cases (text_of m.phase == phase_deleting)) [
      | inl e ↦ rw e refl
      | inr e ↦ rw e refl
    ]),
  )

  -- lemma
  pub machine_to_nodeclaim-HasIdentity :
      (now : ℕ) (m : Machine) (nc : NodeClaim)
      → machine_to_nodeclaim s k d zones now m ≡ ok nc
      → HasIdentity m nc
  unfolding machine_to_nodeclaim
  machine_to_nodeclaim-HasIdentity now m nc h =
      elim (Result-cases (resolve_machine_to_instance_type s k d zones m)) [
        | inl (it, e) ↦
            subst (HasIdentity m) (ok-injective (rw (machine_to_nodeclaim, e) at h))
              (nodeclaim_of-HasIdentity now m it)
        | inr (f, e) ↦ cc (rw (machine_to_nodeclaim, e) at h)
      ]
