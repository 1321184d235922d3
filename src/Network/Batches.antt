-- ===== src/Network/Batches.antt =====
-- The loop of getSubnetFilterSets over the IDs, five at a time.
use karpenter_provider_tke.Prelude.{
  ℕ, zero, suc, ◌+◌, ◌-◌, ◌/◌, ◌≤◌, ◌<◌, ◌≡◌, refl, sym, ap, ap₂, subst, ◌∙◌, String, List, [], ◌∷◌,
  ◌++◌, arith, ltb, length, take, drop, Bool-cases, inl, inr, All, if◌then◌else◌,
}
use mathlib.Core.List.{append_assoc, append-nil}
use karpenter_provider_tke.Network.{Filter, batches, batch_filter, slice, end_of}

-- the values of the filters, in their order
abbrev pub values_in : List Filter → List String
values_in [] = []
values_in (f ∷ fs) = f.values ++ values_in fs

unfoldable pub all_values : List (List Filter) → List String
all_values [] = []
all_values (s ∷ sets) = values_in s ++ all_values sets

-- a filter set of one filter for one to five subnet IDs
abbrev pub IsBatch : List Filter → Type 0
IsBatch (f ∷ []) = (f.name ≡ "subnet-id") × (0 < length f.values) × (length f.values ≤ 5)
IsBatch _ = ⊥

all_values-append :
    (xs ys : List (List Filter)) → all_values (xs ++ ys) ≡ all_values xs ++ all_values ys
unfolding all_values
all_values-append [] ys = refl
all_values-append (x ∷ xs) ys =
    ap (λ s. values_in x ++ s) (all_values-append xs ys) ∙ sym (append_assoc (values_in x) _ _)

take_short : (n : ℕ) (xs : List String) → length xs ≤ n → take n xs ≡ xs
take_short zero [] h = refl
take_short zero (x ∷ xs) h = absurd (omega (arith, h))
take_short (suc n) [] h = refl
take_short (suc n) (x ∷ xs) h = ap (λ r. x ∷ r) (take_short n xs (omega (arith, h)))

drop_short : (n : ℕ) (xs : List String) → length xs ≤ n → drop n xs ≡ []
drop_short zero [] h = refl
drop_short zero (x ∷ xs) h = absurd (omega (arith, h))
drop_short (suc n) [] h = refl
drop_short (suc n) (x ∷ xs) h = drop_short n xs (omega (arith, h))

length-drop : (n : ℕ) (xs : List String) → length (drop n xs) ≡ length xs - n
length-drop zero xs = omega arith
length-drop (suc n) [] = omega arith
length-drop (suc n) (x ∷ xs) = omega (arith, length-drop n xs)

length-take : (n : ℕ) (xs : List String) → n ≤ length xs → length (take n xs) ≡ n
length-take zero xs h = refl
length-take (suc n) [] h = absurd (omega (arith, h))
length-take (suc n) (x ∷ xs) h = ap suc (length-take n xs (omega (arith, h)))

take-drop_lem : (n : ℕ) (xs : List String) → take n xs ++ drop n xs ≡ xs
take-drop_lem zero xs = refl
take-drop_lem (suc n) [] = refl
take-drop_lem (suc n) (x ∷ xs) = ap (λ r. x ∷ r) (take-drop_lem n xs)

drop-drop : (a b : ℕ) (xs : List String) → drop a (drop b xs) ≡ drop (b + a) xs
drop-drop a zero xs = ap (λ n. drop n xs) (omega arith)
drop-drop a (suc b) [] =
    drop_short a [] (omega arith) ∙ sym (drop_short (suc b + a) [] (omega arith))
drop-drop a (suc b) (x ∷ xs) =
    let e : suc (b + a) ≡ suc b + a = omega arith in
    drop-drop a b xs ∙ ap (λ (n : ℕ). drop n (x ∷ xs)) e

-- A batch and what follows it make up what is left.
slice-rest :
    (i : ℕ) (values : List String)
    → slice i (end_of i values) values ++ drop (i + 5) values ≡ drop i values
slice-rest i values = elim (Bool-cases (ltb (length values) (i + 5))) [
  | inl last ↦
      rw
        (
          last,
          take_short (length values - i) (drop i values) (omega (arith, length-drop i values)),
          drop_short (i + 5) values (ground (arith, last)),
        )
        (append-nil _)
  | inr more ↦
      rw (more, sym (drop-drop 5 i values))
        (let e : 5 ≡ i + 5 - i = omega arith in
          subst (λ (n : ℕ). take n (drop i values) ++ drop 5 (drop i values) ≡ drop i values) e
            (take-drop_lem 5 (drop i values)))
]

size_of :
    (i : ℕ) (values : List String)
    → i < length values
    → length (slice i (end_of i values) values)
      ≡ (if ltb (length values) (i + 5) then length values - i else 5)
size_of i values h =
    length-take (end_of i values - i) (drop i values) (ground (arith, length-drop i values))
    ∙ ground arith

batch_filter-IsBatch :
    (i : ℕ) (values : List String) → i < length values → IsBatch (batch_filter i values ∷ [])
batch_filter-IsBatch i values h =
    (refl, ground (arith, size_of i values h), ground (arith, size_of i values h))

-- What the loop from `i` on adds to `res`.
abbrev pub IsComplete : List String → ℕ → List (List Filter) → Type 0
IsComplete values i bs =
    All IsBatch bs × (all_values bs ≡ drop i values) × (length bs ≡ (length values - i + 4) / 5)

add_batch :
    (values : List String) (i : ℕ) (bs : List (List Filter))
    → i < length values
    → IsComplete values (i + 5) bs
    → IsComplete values i ((batch_filter i values ∷ []) ∷ bs)
unfolding all_values
add_batch values i bs h (all, e, n) = (
  (batch_filter-IsBatch i values h, all),
  ap₂ (λ a b. a ++ b) (append-nil _) e ∙ slice-rest i values,
  omega (arith, n, h),
)

pub batches-IsComplete :
    (fuel : ℕ) (values : List String) (i : ℕ) (res : List (List Filter))
    → length values ≤ fuel + i
    → (bs : List (List Filter)) × (batches fuel values i res ≡ res ++ bs) × IsComplete values i bs
unfolding batches all_values
batches-IsComplete zero values i res h =
    ([], sym (append-nil res), (tt, sym (drop_short i values (omega (arith, h))), omega (arith, h)))
batches-IsComplete (suc fuel) values i res h = elim (Bool-cases (ltb i (length values))) [
  | inr over ↦ rw over (
    [],
    sym (append-nil res),
    (tt, sym (drop_short i values (ground (arith, over))), ground (arith, over)),
  )
  | inl inside ↦
      let (bs, e, complete) =
        batches-IsComplete fuel values (i + 5) (res ++ (batch_filter i values ∷ []) ∷ [])
          (omega (arith, h)) in
      rw inside (
        (batch_filter i values ∷ []) ∷ bs,
        e ∙ append_assoc res _ bs,
        add_batch values i bs (ground (arith, inside)) complete,
      )
]
