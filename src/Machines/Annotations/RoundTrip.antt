-- ===== src/Machines/Annotations/RoundTrip.antt =====
-- What resourceListFromAnnotations finds of what Create wrote.
use karpenter_provider_tke.Prelude.{
  ◌≡◌, refl, ap, ◌∙◌, String, Option, none, some, [], ◌∷◌, if◌then◌else◌, pos, eqb_ℤ, lookup,
  Bool-cases, inl, inr, All, is_some, true,
}
use karpenter_provider_tke.Labels
use karpenter_provider_tke.Strconv.{◌<>◌}
use karpenter_provider_tke.Scheduling.{Quantity, ResourceList, Overhead}
use karpenter_provider_tke.Machines.Annotations.{
  quantity_at, written, unless_zero, pick, texts, lookup-set_all, resource_annotations,
  resource_list_from_annotations,
}
use karpenter_provider_tke.Machines.Annotations.Parsed.{
  parses, parsed, values, lookup-set_parsed, parses-set_all, texts-parse,
}

infixr 5 ◌⊗◌
abbrev ◌⊗◌ {ℓ κ} : {P : Type ℓ} {Q : Type κ} → P → Q → P × Q
p ⊗ q = (p, q)

module _ (show : Quantity → String) (parse : String → Option Quantity) where
  abbrev pub read_capacity : ResourceList → Overhead → Option ResourceList
  read_capacity capacity overhead =
      resource_list_from_annotations parse Labels.capacity_group
        (resource_annotations show capacity overhead)

  -- what pick makes of the one entry for a key
  abbrev one : {V : Type 0} → Option V → Option V
  one none = none
  one (some v) = some v

  read_one : Option String → Option Quantity
  read_one o = one (parsed parse o)

  read_one-written :
      ((q : Quantity) → parse (show q) ≡ some q)
      → (o : Option Quantity) → read_one (one (written show o)) ≡ o
  unfolding read_one
  read_one-written back none = refl
  read_one-written back (some q) = ap one (back q)

  parses-shown :
      ((q : Quantity) → parse (show q) ≡ some q)
      → (q : Quantity) → parses parse (some (show q)) ≡ true
  parses-shown back q = ap is_some (back q)

  parses-written :
      ((q : Quantity) → parse (show q) ≡ some q)
      → (o : Option Quantity) → parses parse (written show o) ≡ true
  parses-written back none = refl
  parses-written back (some q) = ap is_some (back q)

  parses-unless_zero :
      ((q : Quantity) → parse (show q) ≡ some q)
      → (q : Quantity) → parses parse (unless_zero show q) ≡ true
  parses-unless_zero back q = elim (Bool-cases (eqb_ℤ q (pos 0))) [
    | inl zero ↦ rw zero refl
    | inr kept ↦ rw kept (ap is_some (back q))
  ]

  -- Every annotation for a resource can be parsed.
  parses-resource_annotations :
      (capacity : ResourceList) (overhead : Overhead)
      → ((q : Quantity) → parse (show q) ≡ some q)
      → (k : String) → parses parse (lookup k (resource_annotations show capacity overhead)) ≡ true
  unfolding resource_annotations
  parses-resource_annotations capacity overhead back k =
      let shown = parses-shown back in
      let if_set = parses-unless_zero back in
      let if_there = parses-written back in
      parses-set_all parse k _ (
        shown _
        ⊗ shown _
        ⊗ shown _
        ⊗ shown _
        ⊗ shown _
        ⊗ shown _
        ⊗ shown _
        ⊗ shown _
        ⊗ if_set (quantity_at Labels.resource_ephemeral_storage overhead.kube_reserved)
        ⊗ if_set (quantity_at Labels.resource_cpu overhead.system_reserved)
        ⊗ if_set (quantity_at Labels.resource_memory overhead.system_reserved)
        ⊗ if_set (quantity_at Labels.resource_ephemeral_storage overhead.system_reserved)
        ⊗ if_there _
        ⊗ if_there _
        ⊗ if_there _
        ⊗ if_there _
        ⊗ if_there _
        ⊗ if_there _
        ⊗ tt)

  -- what a group of the annotations reads back as
  read_group :
      (group : String) (capacity : ResourceList) (overhead : Overhead)
      → ((q : Quantity) → parse (show q) ≡ some q)
      → (r : ResourceList) × (resource_list_from_annotations parse group
            (resource_annotations show capacity overhead)
          ≡ some r)
  read_group group capacity overhead back =
      texts-parse parse group (resource_annotations show capacity overhead)
        (parses-resource_annotations capacity overhead back)

  -- If parsing a printed quantity gives it back, then of the capacity that Create writes on a
  -- machine, resourceListFromAnnotations reads back, without a panic, cpu, memory, pods and
  -- ephemeral storage, zero where one was missing, and each of the network and GPU resources
  -- exactly where the instance type has it.
  pub read_capacity-capacity :
      (capacity : ResourceList) (overhead : Overhead)
      → ((q : Quantity) → parse (show q) ≡ some q)
      → (r : ResourceList) × (read_capacity capacity overhead ≡ some r)
        × All
            (λ name. lookup name r ≡ some (quantity_at name capacity))
            (Labels.resource_cpu ∷ Labels.resource_memory ∷ Labels.resource_pods
              ∷ Labels.resource_ephemeral_storage ∷ [])
        × All
            (λ name. lookup name r ≡ lookup name capacity)
            (Labels.tke_label_eniip ∷ Labels.tke_label_direct_eni ∷ Labels.tke_label_eni
              ∷ Labels.tke_label_sub_eni ∷ Labels.tke_label_eip ∷ Labels.resource_nvidia_gpu ∷ [])
  unfolding resource_list_from_annotations resource_annotations lookup read_one
  read_capacity-capacity capacity overhead back =
      let es = texts Labels.capacity_group (resource_annotations show capacity overhead) in
      let found = read_group Labels.capacity_group capacity overhead back in
      let at : (name : String) → lookup name found.0 ≡ pick name (values parse es) none =
        λ name. lookup-set_parsed parse name es [] found.0 found.1 in
      (
        found.0,
        found.1,
        (at Labels.resource_cpu
              ∙ ap read_one (lookup-set_all (Labels.capacity_group <> Labels.annotation_cpu) _ [])
              ∙ ap one (back _))
            ⊗ (at Labels.resource_memory
                ∙ ap read_one
                    (lookup-set_all (Labels.capacity_group <> Labels.annotation_memory) _ [])
                ∙ ap one (back _))
            ⊗ (at Labels.resource_pods
                ∙ ap read_one
                    (lookup-set_all (Labels.capacity_group <> Labels.annotation_pods) _ [])
                ∙ ap one (back _))
            ⊗ (at Labels.resource_ephemeral_storage
                ∙ ap read_one (
                    lookup-set_all (Labels.capacity_group <> Labels.annotation_ephemeral_storage) _
                      [])
                ∙ ap one (back _))
            ⊗ tt,
        (at Labels.tke_label_eniip
              ∙ ap read_one (lookup-set_all (Labels.capacity_group <> Labels.annotation_eniip) _ [])
              ∙ read_one-written back (lookup Labels.tke_label_eniip capacity))
            ⊗ (at Labels.tke_label_direct_eni
                ∙ ap read_one
                    (lookup-set_all (Labels.capacity_group <> Labels.annotation_direct_eni) _ [])
                ∙ read_one-written back (lookup Labels.tke_label_direct_eni capacity))
            ⊗ (at Labels.tke_label_eni
                ∙ ap read_one (lookup-set_all (Labels.capacity_group <> Labels.annotation_eni) _ [])
                ∙ read_one-written back (lookup Labels.tke_label_eni capacity))
            ⊗ (at Labels.tke_label_sub_eni
                ∙ ap read_one
                    (lookup-set_all (Labels.capacity_group <> Labels.annotation_sub_eni) _ [])
                ∙ read_one-written back (lookup Labels.tke_label_sub_eni capacity))
            ⊗ (at Labels.tke_label_eip
                ∙ ap read_one (lookup-set_all (Labels.capacity_group <> Labels.annotation_eip) _ [])
                ∙ read_one-written back (lookup Labels.tke_label_eip capacity))
            ⊗ (at Labels.resource_nvidia_gpu
                ∙ ap read_one
                    (lookup-set_all (Labels.capacity_group <> Labels.annotation_gpu_count) _ [])
                ∙ read_one-written back (lookup Labels.resource_nvidia_gpu capacity))
            ⊗ tt,
      )

  -- If parsing a printed quantity gives it back, the annotations of the Kubernetes reserve are
  -- read without a panic, and the memory that is reserved is read back as it was if no ephemeral
  -- storage is reserved, and otherwise the reserve of ephemeral storage is read back in its place.
  pub read_kube_reserved-memory :
      (capacity : ResourceList) (overhead : Overhead)
      → ((q : Quantity) → parse (show q) ≡ some q)
      → (r : ResourceList) × (resource_list_from_annotations parse Labels.kube_reserved_group
            (resource_annotations show capacity overhead)
          ≡ some r)
        × (lookup Labels.resource_memory r
            ≡ some (
                if eqb_ℤ
                  (quantity_at Labels.resource_ephemeral_storage overhead.kube_reserved)
                  (pos 0)
                then quantity_at Labels.resource_memory overhead.kube_reserved
                else quantity_at Labels.resource_ephemeral_storage overhead.kube_reserved))
  unfolding resource_list_from_annotations resource_annotations lookup read_one
  read_kube_reserved-memory capacity overhead back =
      let found = read_group Labels.kube_reserved_group capacity overhead back in
      (
        found.0,
        found.1,
        lookup-set_parsed parse Labels.resource_memory
              (texts Labels.kube_reserved_group (resource_annotations show capacity overhead)) []
              found.0 found.1
            ∙ ap read_one
                (lookup-set_all (Labels.kube_reserved_group <> Labels.annotation_memory) _ [])
            ∙ elim (Bool-cases (
                eqb_ℤ (quantity_at Labels.resource_ephemeral_storage overhead.kube_reserved)
                  (pos 0))) [
                    | inl zero ↦ rw zero (ap one (back _))
                    | inr kept ↦ rw kept (ap one (back _))
                  ],
      )
