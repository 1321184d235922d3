-- ===== src/Prelude/Order.antt =====
-- Strict orders as Boolean tests, and the one sorted arrangement of a list.
use mathlib.Core.Path.{◌≡◌, sym, ap₂, subst}
use mathlib.Core.Bool.{Bool, true, false}
use mathlib.Core.List.{List, [], ◌∷◌, Mem, Perm, mem-cons, mem-cons_self, mem-cons_of_mem}
use mathlib.Core.List.Perm
use mathlib.Core.Logic.Or

-- a strict order, up to ties
pub record IsOrder (A : Type 0) (less : A → A → Bool) : Type 0 where
  pub asym : (a b : A) → less a b ≡ true → less b a ≡ false
  pub cotrans : (a b c : A) → less a b ≡ false → less b c ≡ false → less a c ≡ false

module _ {A : Type 0} (less : A → A → Bool) where
  -- no element is less than one before it
  abbrev pub IsSorted : List A → Type 0
  IsSorted [] = Unit
  IsSorted (x ∷ xs) = ((y : A) → Mem y xs → less y x ≡ false) × IsSorted xs

  -- elements of a list that are not in order are one
  abbrev pub IsTotal : List A → Type 0
  IsTotal xs = (a b : A) → Mem a xs → Mem b xs → less a b ≡ false → less b a ≡ false → a ≡ b

  module _ (set : IsSet A) where
    heads-eq :
        (x y : A) (xs ys : List A)
        → IsTotal (x ∷ xs)
        → IsSorted (x ∷ xs)
        → IsSorted (y ∷ ys)
        → Perm (x ∷ xs) (y ∷ ys)
        → x ≡ y
    heads-eq x y xs ys total left right p =
        Or.elim (set x y) (mem-cons.0 ((Perm.mem_iff p).0 mem-cons_self)) (λ e. e)
          (λ behind.
            Or.elim (set x y) (mem-cons.0 ((Perm.mem_iff p).1 mem-cons_self)) (λ e. sym e)
              (λ after.
                total x y mem-cons_self (mem-cons_of_mem x after) (right.0 x behind)
                  (left.0 y after)))

    pub sorted_unique :
        (xs ys : List A) → IsTotal xs → IsSorted xs → IsSorted ys → Perm xs ys → xs ≡ ys
    sorted_unique [] ys total left right p = Perm.nil-eq p
    sorted_unique (x ∷ xs) [] total left right p = Perm.eq-nil p
    sorted_unique (x ∷ xs) (y ∷ ys) total left right p =
        let e = heads-eq x y xs ys total left right p in
        let rest : xs ≡ ys =
          sorted_unique xs ys (λ a b ha hb. total a b (mem-cons_of_mem x ha) (mem-cons_of_mem x hb))
            left.1 right.1 (Perm.cons_inv (subst (λ z. Perm (x ∷ xs) (z ∷ ys)) (sym e) p)) in
        ap₂ (λ z zs. z ∷ zs) e rest
