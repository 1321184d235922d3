-- ===== src/Examples/Orders.antt =====
-- The order of texts by their characters, and insertion sort: concrete functions for the parameters.
use Prim.Native.Char.{code}
use text.Mathlib.TextEquality.{Char-path}
use mathlib.Core.List.{Perm, mem-cons, not-mem-nil}
use mathlib.Core.List.Perm
use mathlib.Core.Logic.Or
use karpenter_provider_tke.Prelude.{
  ◌≡◌, refl, sym, ap₂, subst, arith, String, Bool, true, false, List, [], ◌∷◌, ltb, eqb,
  if◌then◌else◌, IsOrder, IsSorted, Bool-cases, inl, inr,
}
use karpenter_provider_tke.NodeClass.Status.Sorting.{IsSorting}

pub text_before : String → String → Bool
text_before String.[] String.[] = false
text_before String.[] (String.◌∷◌ d t) = true
text_before (String.◌∷◌ c s) String.[] = false
text_before (String.◌∷◌ c s) (String.◌∷◌ d t) =
    let rest = text_before s t in
    if ltb (code c) (code d) then true else if eqb (code c) (code d) then rest else false

text_before-asym : (a b : String) → text_before a b ≡ true → text_before b a ≡ false
unfolding text_before
text_before-asym String.[] String.[] h = refl
text_before-asym String.[] (String.◌∷◌ d t) h = refl
text_before-asym (String.◌∷◌ c s) String.[] h = cc
text_before-asym (String.◌∷◌ c s) (String.◌∷◌ d t) h = ground (arith, h, text_before-asym s t)

text_before-cotrans :
    (a b c : String) → text_before a b ≡ false → text_before b c ≡ false → text_before a c ≡ false
unfolding text_before
text_before-cotrans String.[] String.[] c h k = k
text_before-cotrans String.[] (String.◌∷◌ d t) c h k = cc
text_before-cotrans (String.◌∷◌ c s) b String.[] h k = refl
text_before-cotrans (String.◌∷◌ c s) String.[] (String.◌∷◌ e u) h k = cc
text_before-cotrans (String.◌∷◌ c s) (String.◌∷◌ d t) (String.◌∷◌ e u) h k =
    ground (arith, h, k, text_before-cotrans s t u)

pub text_before-total : (a b : String) → text_before a b ≡ false → text_before b a ≡ false → a ≡ b
unfolding text_before
text_before-total String.[] String.[] h k = refl
text_before-total String.[] (String.◌∷◌ d t) h k = cc
text_before-total (String.◌∷◌ c s) String.[] h k = cc
text_before-total (String.◌∷◌ c s) (String.◌∷◌ d t) h k =
    let heads : code c ≡ code d = ground (arith, h, k) in
    let left : text_before s t ≡ false = ground (arith, h, heads) in
    let right : text_before t s ≡ false = ground (arith, k, heads) in
    ap₂ (λ x y. String.◌∷◌ x y) (Char-path c d heads) (text_before-total s t left right)

pub text_before-IsOrder : IsOrder String text_before
text_before-IsOrder = record { asym = text_before-asym; cotrans = text_before-cotrans }

module _ {A : Type 0} (less : A → A → Bool) where
  pub put : A → List A → List A
  put x [] = x ∷ []
  put x (y ∷ ys) = let rest = put x ys in if less y x then y ∷ rest else x ∷ y ∷ ys

  pub sorted : List A → List A
  sorted [] = []
  sorted (x ∷ xs) = put x (sorted xs)

  put-perm : (x : A) (ys : List A) → Perm (put x ys) (x ∷ ys)
  unfolding put
  put-perm x [] = Perm.refl _
  put-perm x (y ∷ ys) = elim (Bool-cases (less y x)) [
    | inl after ↦ rw (put, after) (Perm.trans (Perm.cons y (put-perm x ys)) (Perm.swap x y ys))
    | inr before ↦ rw (put, before) (Perm.refl _)
  ]

  sorted-perm : (xs : List A) → Perm (sorted xs) xs
  unfolding sorted
  sorted-perm [] = Perm.refl _
  sorted-perm (x ∷ xs) = Perm.trans (put-perm x (sorted xs)) (Perm.cons x (sorted-perm xs))

  module _ (order : IsOrder A less) where
    put-IsSorted : (x : A) (ys : List A) → IsSorted less ys → IsSorted less (put x ys)
    unfolding put
    put-IsSorted x [] h = (λ y m. absurd (not-mem-nil m), tt)
    put-IsSorted x (y ∷ ys) (least, h) = elim (Bool-cases (less y x)) [
      | inl after ↦
          rw (put, after)
            (
              λ z m.
                  Or.elim (hlevel) (mem-cons.0 ((Perm.mem_iff (put-perm x ys)).0 m))
                    (λ e. subst (λ w. less w y ≡ false) (sym e) (order.asym y x after)) (least z),
              put-IsSorted x ys h,
            )
      | inr before ↦
          rw (put, before)
            (
              λ z m.
                  Or.elim (hlevel) (mem-cons.0 m)
                    (λ e. subst (λ w. less w x ≡ false) (sym e) before)
                    (λ behind. order.cotrans z y x (least z behind) before),
              (least, h),
            )
    ]

    sorted-IsSorted : (xs : List A) → IsSorted less (sorted xs)
    unfolding sorted
    sorted-IsSorted [] = tt
    sorted-IsSorted (x ∷ xs) = put-IsSorted x (sorted xs) (sorted-IsSorted xs)

pub sorted-IsSorting : {A : Type 0} → IsSorting A sorted
sorted-IsSorting = record {
  rearranges = λ less xs order. sorted-perm less xs;
  orders = λ less xs order. sorted-IsSorted less order xs;
}
