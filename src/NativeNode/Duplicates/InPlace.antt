-- ===== src/NativeNode/Duplicates/InPlace.antt =====
-- removeDuplicate in place is the filter that keeps the first occurrence of each text.
use karpenter_provider_tke.Prelude.{
  ℕ, suc, ◌+◌, ◌≡◌, refl, sym, ap, subst, ◌∙◌, String, true, List, [], ◌∷◌, ◌++◌, arith, length,
  length-append, take, Bool-cases, inl, inr, if◌then◌else◌,
}
use mathlib.Core.List.{append_assoc, append-nil}
use karpenter_provider_tke.NativeNode.Duplicates.{at, set_at, is_fresh, dedupe, remove_duplicate}

-- The texts that are not empty and were not seen before, each at its first place.
unfoldable pub firsts : List String → List String → List String
firsts seen [] = []
firsts seen (v ∷ vs) =
    let kept = firsts (v ∷ seen) vs in
    let dropped = firsts seen vs in if is_fresh v seen then v ∷ kept else dropped

at-append :
    (xs : List String) (v : String) (vs : List String) (i : ℕ)
    → i ≡ length xs
    → at i (xs ++ v ∷ vs) ≡ v
unfolding at
at-append [] v vs i e = rw e refl
at-append (x ∷ xs) v vs i e = rw e (at-append xs v vs (length xs) refl)

set_at-append :
    (kept : List String) (v j : String) (rest : List String)
    → set_at (length kept) v (kept ++ j ∷ rest) ≡ kept ++ v ∷ rest
unfolding set_at
set_at-append [] v j rest = refl
set_at-append (x ∷ xs) v j rest = ap (λ r. x ∷ r) (set_at-append xs v j rest)

take-append : (kept rest : List String) → take (length kept) (kept ++ rest) ≡ kept
take-append [] rest = refl
take-append (x ∷ xs) rest = ap (λ r. x ∷ r) (take-append xs rest)

-- Writing a kept element over the first dropped one keeps the rest.
set_at-kept :
    (kept junk m : List String) (v : String) (vs : List String)
    → length m ≡ length kept
    → (left : List String) × (set_at (length m) v (kept ++ (junk ++ v ∷ vs))
        ≡ (kept ++ v ∷ []) ++ (left ++ vs))
      × (length left ≡ length junk)
set_at-kept kept [] m v vs n =
    ([], rw n (set_at-append kept v v vs ∙ sym (append_assoc kept (v ∷ []) vs)), refl)
set_at-kept kept (j ∷ js) m v vs n = (
  js ++ v ∷ [],
  rw n (
      set_at-append kept v j (js ++ v ∷ vs)
      ∙ ap (λ r. kept ++ v ∷ r) (sym (append_assoc js (v ∷ []) vs))
      ∙ sym (append_assoc kept (v ∷ []) _)),
  omega (arith, length-append js (v ∷ [])),
)

-- the slice that is cut off after the kept elements
abbrev cut : List String × List String → List String
cut (s, m) = take (length m) s

at-rest :
    (kept junk vs : List String) (v : String) (i : ℕ)
    → i ≡ length kept + length junk
    → at i (kept ++ (junk ++ v ∷ vs)) ≡ v
at-rest kept junk vs v i e =
    ap (at i) (sym (append_assoc kept junk (v ∷ vs)))
    ∙ at-append (kept ++ junk) v vs i (omega (arith, e, length-append kept junk))

dedupe-step :
    (n i : ℕ) (s m : List String) (v : String)
    → at i s ≡ v
    → dedupe (suc n) i s m
      ≡ dedupe n
          (suc i)
          (if is_fresh v m then set_at (length m) v s else s)
          (if is_fresh v m then v ∷ m else m)
unfolding dedupe
dedupe-step n i s m v e = rw (← e) refl

-- What the loop leaves, from a slice of kept elements, elements that were read and dropped, and the
-- rest.
cut-dedupe :
    (rest junk kept m : List String) (i : ℕ)
    → i ≡ length kept + length junk
    → length m ≡ length kept
    → cut (dedupe (length rest) i (kept ++ (junk ++ rest)) m) ≡ kept ++ firsts m rest
unfolding dedupe firsts
cut-dedupe [] junk kept m i e n =
    subst (λ (k : ℕ). take k (kept ++ (junk ++ [])) ≡ kept ++ []) (sym n)
      (take-append kept _ ∙ sym (append-nil kept))
cut-dedupe (v ∷ vs) junk kept m i e n =
    ap cut (dedupe-step (length vs) i _ m v (at-rest kept junk vs v i e))
    ∙ (elim (Bool-cases (is_fresh v m)) [
      | inl fresh ↦
          let (left, moved, same) = set_at-kept kept junk m v vs n in
          rw (fresh, moved)
            (cut-dedupe vs left (kept ++ v ∷ []) (v ∷ m) (suc i)
                (omega (arith, e, same, length-append kept (v ∷ [])))
                (omega (arith, n, length-append kept (v ∷ [])))
              ∙ append_assoc kept (v ∷ []) _)
      | inr dropped ↦ rw dropped (
          subst (λ r. cut (dedupe (length vs) (suc i) (kept ++ r) m) ≡ kept ++ firsts m vs)
            (append_assoc junk (v ∷ []) vs)
            (cut-dedupe vs (junk ++ v ∷ []) kept m (suc i)
              (omega (arith, e, length-append junk (v ∷ []))) n))
    ])

-- The loop of removeDuplicate, which writes to the slice that it reads, leaves the texts that are
-- not empty, each where it occurs first, in their order.
pub remove_duplicate-firsts : (s : List String) → remove_duplicate s ≡ firsts [] s
unfolding remove_duplicate
remove_duplicate-firsts s = cut-dedupe s [] [] [] 0 refl refl

-- every text is fresh where it stands
abbrev pub AreFresh : List String → List String → Type 0
AreFresh seen [] = Unit
AreFresh seen (v ∷ vs) = (is_fresh v seen ≡ true) × AreFresh (v ∷ seen) vs

pub firsts-AreFresh : (seen vs : List String) → AreFresh seen (firsts seen vs)
unfolding firsts
firsts-AreFresh seen [] = tt
firsts-AreFresh seen (v ∷ vs) = elim (Bool-cases (is_fresh v seen)) [
  | inl fresh ↦ rw fresh (fresh, firsts-AreFresh (v ∷ seen) vs)
  | inr dropped ↦ rw dropped (firsts-AreFresh seen vs)
]

pub firsts_fixed : (seen vs : List String) → AreFresh seen vs → firsts seen vs ≡ vs
unfolding firsts
firsts_fixed seen [] fresh = refl
firsts_fixed seen (v ∷ vs) (first, others) = rw (first, firsts_fixed (v ∷ seen) vs others) refl

pub remove_duplicate_idem :
    (s : List String) → remove_duplicate (remove_duplicate s) ≡ remove_duplicate s
remove_duplicate_idem s =
    remove_duplicate-firsts (remove_duplicate s)
    ∙ ap (firsts []) (remove_duplicate-firsts s)
    ∙ firsts_fixed [] (firsts [] s) (firsts-AreFresh [] s)
    ∙ sym (remove_duplicate-firsts s)
