-- ===== src/Options/Slices.antt =====
-- What PrettySlice prints.
use text.Mathlib.TextLemmas.{nil-append, append_assoc}
use karpenter_provider_tke.Prelude.{
  ℕ, zero, suc, ◌-◌, ◌+◌, ◌≤◌, ◌≡◌, refl, sym, ap, ◌∙◌, arith, String, true, false, List, [], ◌∷◌,
  length, take, if◌then◌else◌, ltb, leb,
}
use karpenter_provider_tke.Strconv.{◌<>◌, itoa_ℕ}
use karpenter_provider_tke.Options.{pretty_from, pretty_slice}

-- the texts, each after a separator
abbrev pub separated : List String → String
separated [] = ""
separated (x ∷ xs) = ", " <> x <> separated xs

-- the texts with separators between them
abbrev pub joined : List String → String
joined [] = ""
joined (x ∷ xs) = x <> separated xs

-- what stands for the texts that are not printed
abbrev pub others : ℕ → ℕ → String
others size max_items =
    if leb size max_items then "" else " and " <> itoa_ℕ (size - max_items) <> " other(s)"

others_none : (size max_items : ℕ) → size ≤ max_items → others size max_items ≡ ""
others_none size max_items h = ground arith

others_some :
    (size max_items : ℕ)
    → max_items + 1 ≤ size
    → others size max_items ≡ " and " <> itoa_ℕ (size - max_items) <> " other(s)"
others_some size max_items h =
    let over : leb size max_items ≡ false = ground (arith, h) in rw over refl

-- `left` is the number of texts that may still be printed behind the first one.
pretty_from-later :
    (left size max_items i : ℕ) (xs : List String)
    → i + length xs ≡ size
    → i + left ≡ max_items
    → 1 ≤ i
    → pretty_from size max_items i xs ≡ separated (take left xs) <> others size max_items
unfolding pretty_from
pretty_from-later zero size max_items i [] n m first =
    sym (ap (λ t. "" <> t) (others_none size max_items (omega arith)) ∙ nil-append "")
pretty_from-later (suc left) size max_items i [] n m first =
    sym (ap (λ t. "" <> t) (others_none size max_items (omega arith)) ∙ nil-append "")
pretty_from-later zero size max_items i (x ∷ xs) n m first =
    let stop : ltb max_items (i + 1) ≡ true = ground (arith, m) in
    let here : i ≡ max_items = omega arith in
    rw stop (
      ap (λ (k : ℕ). " and " <> itoa_ℕ (size - k) <> " other(s)") here
      ∙ sym (others_some size max_items (omega arith))
      ∙ sym (nil-append _))
pretty_from-later (suc left) size max_items i (x ∷ xs) n m first =
    let go : ltb max_items (i + 1) ≡ false = ground (arith, m) in
    let behind : ltb 0 i ≡ true = ground (arith, first) in
    let later =
      pretty_from-later left size max_items (i + 1) xs (omega arith) (omega arith) (omega arith) in
    rw (go, behind)
      (ap (λ t. ", " <> x <> t) later
        ∙ ap (λ t. ", " <> t)
            (sym (append_assoc x (separated (take left xs)) (others size max_items)))
        ∙ sym (append_assoc ", " (x <> separated (take left xs)) (others size max_items)))

-- PrettySlice prints the first texts with separators between them, and the number of the others if there
-- are any.
pub pretty_slice-joined :
    (s : List String) (max_items : ℕ)
    → pretty_slice s max_items ≡ joined (take max_items s) <> others (length s) max_items
unfolding pretty_slice pretty_from
pretty_slice-joined [] zero = sym (nil-append "")
pretty_slice-joined [] (suc m) =
    sym (ap (λ t. "" <> t) (others_none 0 (suc m) (omega arith)) ∙ nil-append "")
pretty_slice-joined (x ∷ xs) zero =
    sym (nil-append _ ∙ others_some (length (x ∷ xs)) 0 (omega arith))
pretty_slice-joined (x ∷ xs) (suc m) =
    let go : ltb (suc m) (0 + 1) ≡ false = ground arith in
    let size : ℕ = length (x ∷ xs) in
    let later =
      pretty_from-later m size (suc m) (0 + 1) xs (omega arith) (omega arith) (omega arith) in
    rw go (
      nil-append _
      ∙ ap (λ t. x <> t) later
      ∙ sym (append_assoc x (separated (take m xs)) (others size (suc m))))
