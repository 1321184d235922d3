-- ===== src/Machines/Annotations.antt =====
-- How an instance type's capacity and overhead travel: Create of pkg/providers/machine/machine.go writes
-- them on the machine as annotations, and resourceListFromAnnotations of
-- pkg/cloudprovider/cloudprovider.go reads them back.
pub mod Parsed
pub mod RoundTrip
use karpenter_provider_tke.Prelude.{
  ℕ, ◌≡◌, refl, ap, ◌∙◌, String, ◌==◌, eq_iff, Bool, true, false, Option, none, some, List, [], ◌∷◌,
  if◌then◌else◌, arith, ℤ, pos, eqb_ℤ, Dict, lookup, insert, lookup-insert,
}
use karpenter_provider_tke.Labels
use karpenter_provider_tke.Strconv.{◌<>◌}
use karpenter_provider_tke.Scheduling.{Quantity, ResourceList, InstanceType, Overhead}

-- an assignment to a map, where there is something to assign
abbrev pub set_if {ℓ} : {V : Type ℓ} → String → Option V → Dict V → Dict V
set_if k none m = m
set_if k (some v) m = insert k v m

-- assignments in turn
unfoldable pub set_all {ℓ} : {V : Type ℓ} → List (String × Option V) → Dict V → Dict V
set_all [] m = m
set_all ((k, o) ∷ es) m = set_all es (set_if k o m)

-- Cpu(), Memory(), Pods(), StorageEphemeral(): zero for a missing resource
abbrev pub or_zero : Option Quantity → Quantity
or_zero none = pos 0
or_zero (some q) = q

abbrev pub quantity_at : String → ResourceList → Quantity
quantity_at name r = or_zero (lookup name r)

abbrev pub written : (Quantity → String) → Option Quantity → Option String
written show none = none
written show (some q) = some (show q)

-- `if !q.IsZero()`
abbrev pub unless_zero : (Quantity → String) → Quantity → Option String
unless_zero show q = if eqb_ℤ q (pos 0) then none else some (show q)

-- The annotations for the resources, in the order in which Create sets them. `show` is String() of a
-- quantity.
unfoldable pub resource_annotations : (Quantity → String) → ResourceList → Overhead → Dict String
resource_annotations show capacity overhead =
    let always : String → String → String → ResourceList → String × Option String =
      λ (group annotation name : String) (r : ResourceList).
        (group <> annotation, some (show (quantity_at name r))) in
    let if_set : String → String → String → ResourceList → String × Option String =
      λ (group annotation name : String) (r : ResourceList).
        (group <> annotation, unless_zero show (quantity_at name r)) in
    let if_there : String → String → String × Option String = λ (annotation name : String).
      (Labels.capacity_group <> annotation, written show (lookup name capacity)) in
    set_all
      (always Labels.capacity_group Labels.annotation_cpu Labels.resource_cpu capacity
        ∷ always Labels.capacity_group Labels.annotation_memory Labels.resource_memory capacity
        ∷ always Labels.capacity_group Labels.annotation_pods Labels.resource_pods capacity
        ∷ always Labels.capacity_group Labels.annotation_ephemeral_storage
            Labels.resource_ephemeral_storage capacity
        ∷ always Labels.kube_reserved_group Labels.annotation_cpu Labels.resource_cpu
            overhead.kube_reserved
        ∷ always Labels.kube_reserved_group Labels.annotation_memory Labels.resource_memory
            overhead.kube_reserved
        ∷ always Labels.eviction_threshold_group Labels.annotation_memory Labels.resource_memory
            overhead.eviction_threshold
        ∷ always Labels.eviction_threshold_group Labels.annotation_ephemeral_storage
            Labels.resource_ephemeral_storage overhead.eviction_threshold
        ∷ if_set Labels.kube_reserved_group Labels.annotation_memory
            Labels.resource_ephemeral_storage overhead.kube_reserved
        ∷ if_set Labels.system_reserved_group Labels.annotation_cpu Labels.resource_cpu
            overhead.system_reserved
        ∷ if_set Labels.system_reserved_group Labels.annotation_memory Labels.resource_memory
            overhead.system_reserved
        ∷ if_set Labels.system_reserved_group Labels.annotation_ephemeral_storage
            Labels.resource_ephemeral_storage overhead.system_reserved
        ∷ if_there Labels.annotation_eniip Labels.tke_label_eniip
        ∷ if_there Labels.annotation_direct_eni Labels.tke_label_direct_eni
        ∷ if_there Labels.annotation_eni Labels.tke_label_eni
        ∷ if_there Labels.annotation_sub_eni Labels.tke_label_sub_eni
        ∷ if_there Labels.annotation_eip Labels.tke_label_eip
        ∷ if_there Labels.annotation_gpu_count Labels.resource_nvidia_gpu
        ∷ [])
      []

-- the loop of resourceListFromAnnotations over what it finds. `parse` is resource.MustParse, with `none`
-- where it panics on a text that is no quantity.
unfoldable pub set_parsed :
    (String → Option Quantity) → List (String × Option String) → ResourceList → Option ResourceList
set_parsed parse [] r = some r
set_parsed parse ((k, none) ∷ es) r = set_parsed parse es r
set_parsed parse ((k, some text) ∷ es) r = elim (parse text) [
  | none ↦ none
  | some q ↦ set_parsed parse es (insert k q r)
]

-- each resource, with the text of its annotation
abbrev pub texts : String → Dict String → List (String × Option String)
texts group annotations =
    let found : String → String → String × Option String =
      λ (annotation name : String). (name, lookup (group <> annotation) annotations) in
    found Labels.annotation_cpu Labels.resource_cpu
    ∷ found Labels.annotation_memory Labels.resource_memory
    ∷ found Labels.annotation_pods Labels.resource_pods
    ∷ found Labels.annotation_ephemeral_storage Labels.resource_ephemeral_storage
    ∷ found Labels.annotation_eniip Labels.tke_label_eniip
    ∷ found Labels.annotation_direct_eni Labels.tke_label_direct_eni
    ∷ found Labels.annotation_eni Labels.tke_label_eni
    ∷ found Labels.annotation_sub_eni Labels.tke_label_sub_eni
    ∷ found Labels.annotation_eip Labels.tke_label_eip
    ∷ found Labels.annotation_gpu_count Labels.resource_nvidia_gpu
    ∷ []

-- resourceListFromAnnotations
unfoldable pub resource_list_from_annotations :
    (String → Option Quantity) → String → Dict String → Option ResourceList
resource_list_from_annotations parse group annotations =
    set_parsed parse (texts group annotations) []

-- what the assignments leave at a key
abbrev pub pick {ℓ} : {V : Type ℓ} → String → List (String × Option V) → Option V → Option V
pick j [] v = v
pick j ((k, o) ∷ es) v = pick j es (if k == j then (elim o [ none ↦ v | some w ↦ some w ]) else v)

pub lookup-set_all {ℓ} :
    {V : Type ℓ} (j : String) (es : List (String × Option V)) (m : Dict V)
    → lookup j (set_all es m) ≡ pick j es (lookup j m)
unfolding set_all
lookup-set_all j [] m = refl
lookup-set_all j ((k, none) ∷ es) m = lookup-set_all j es m ∙ ap (pick j es) (ground arith)
lookup-set_all j ((k, some v) ∷ es) m =
    lookup-set_all j es (insert k v m) ∙ ap (pick j es) (lookup-insert k j v m)
