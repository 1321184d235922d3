-- ===== src/Network/Terms.antt =====
-- What the filter sets ask for, term by term.
use karpenter_provider_tke.Prelude.{
  ◌+◌, ◌/◌, ◌≡◌, sym, ap, ap₂, ◌∙◌, String, ◌==◌, Bool, not, List, [], ◌∷◌, ◌++◌, map, arith,
  length, keep_if, Bool-cases, inl, inr, All,
}
use mathlib.Core.List.{append_assoc, append-nil}
use karpenter_provider_tke.Network.{
  SelectorTerm, Filter, tag_filter, split_terms, get_subnet_filter_sets,
}
use karpenter_provider_tke.Network.Batches.{IsBatch, all_values, batches-IsComplete}

abbrev pub has_id : SelectorTerm → Bool
has_id t = not (t.id == "")

-- the IDs of the terms that have one, in the order of the terms
abbrev pub ids_of : List SelectorTerm → List String
ids_of terms = map (λ (t : SelectorTerm). t.id) (keep_if has_id terms)

-- the filters of the terms that have none
abbrev pub tag_sets : List SelectorTerm → List (List Filter)
tag_sets terms =
    map (λ (t : SelectorTerm). map tag_filter t.tags) (keep_if (λ t. not (has_id t)) terms)

pub split_terms_lem :
    (terms : List SelectorTerm) (ids : List String) (res : List (List Filter))
    → split_terms terms ids res ≡ (ids ++ ids_of terms, res ++ tag_sets terms)
unfolding split_terms
split_terms_lem [] ids res = ap₂ (λ a b. (a, b)) (sym (append-nil ids)) (sym (append-nil res))
split_terms_lem (t ∷ ts) ids res = elim (Bool-cases (t.id == "")) [
  | inl blank ↦ rw blank (
      split_terms_lem ts ids (res ++ map tag_filter t.tags ∷ [])
      ∙ ap (λ r. (ids ++ ids_of ts, r)) (append_assoc res _ _))
  | inr given ↦ rw given (
      split_terms_lem ts (ids ++ t.id ∷ []) res
      ∙ ap (λ r. (r, res ++ tag_sets ts)) (append_assoc ids _ _))
]

-- The filter sets for subnets are those of the tags of each term without ID, in the order of the
-- terms, and then batches that each ask for one to five subnet IDs, as few as can hold them, which
-- together are the IDs of the other terms in their order.
pub get_subnet_filter_sets-IsBatch :
    (terms : List SelectorTerm)
    → (bs : List (List Filter)) × (get_subnet_filter_sets terms ≡ tag_sets terms ++ bs)
      × All IsBatch bs
      × (all_values bs ≡ ids_of terms)
      × (length bs ≡ (length (ids_of terms) + 4) / 5)
unfolding get_subnet_filter_sets
get_subnet_filter_sets-IsBatch terms =
    let (bs, e, (all, values, n)) =
      batches-IsComplete (length (ids_of terms)) (ids_of terms) 0 (tag_sets terms) (omega arith) in
    (bs, rw (split_terms_lem terms [] []) e, all, values, omega (arith, n))
