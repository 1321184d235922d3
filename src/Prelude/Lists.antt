-- ===== src/Prelude/Lists.antt =====
-- Lists measured by native numbers, and filtering by a Boolean test.
use Prim.Native.Nat.{ℕ, zero, suc, ◌+◌, ◌≤◌}
use mathlib.Core.Path.{◌≡◌, refl, sym, ap, ◌∙◌}
use mathlib.Core.Logic.{◌⊎◌, inl, inr}
use mathlib.Core.Bool.{Bool, true, false, ◌&&◌, ◌||◌}
use mathlib.Core.List.{List, [], ◌∷◌, ◌++◌, Memᴰ}
use mathlib.Core.Option.{Option, none, some, some-injective}
use native.Mathlib.Omega.{arith}
use karpenter_provider_tke.Prelude.Tests.{if◌then◌else◌, Bool-cases}

module _ {ℓ} {A : Type ℓ} where
  abbrev pub length : List A → ℕ
  length [] = 0
  length (x ∷ xs) = suc (length xs)

  abbrev pub is_empty : List A → Bool
  is_empty [] = true
  is_empty (x ∷ xs) = false

  abbrev pub take : ℕ → List A → List A
  take zero xs = []
  take (suc n) [] = []
  take (suc n) (x ∷ xs) = x ∷ take n xs

  abbrev pub drop : ℕ → List A → List A
  drop zero xs = xs
  drop (suc n) [] = []
  drop (suc n) (x ∷ xs) = drop n xs

  -- lo.Filter
  abbrev pub keep_if : (A → Bool) → List A → List A
  keep_if p [] = []
  keep_if p (x ∷ xs) = let rest = keep_if p xs in if p x then x ∷ rest else rest

  -- lo.ContainsBy
  abbrev pub any_of : (A → Bool) → List A → Bool
  any_of p [] = false
  any_of p (x ∷ xs) = p x || any_of p xs

  abbrev pub all_of : (A → Bool) → List A → Bool
  all_of p [] = true
  all_of p (x ∷ xs) = p x && all_of p xs

  -- the first element that passes a test
  abbrev pub find_first : (A → Bool) → List A → Option A
  find_first p [] = none
  find_first p (x ∷ xs) = let rest = find_first p xs in if p x then some x else rest

  -- every element has the property
  abbrev pub All {κ} : (A → Type κ) → List A → Type κ
  All P [] = Unit
  All P (x ∷ xs) = P x × All P xs

  pub length-append : (xs ys : List A) → length (xs ++ ys) ≡ length xs + length ys
  length-append [] ys = omega arith
  length-append (x ∷ xs) ys = omega (arith, length-append xs ys)

  pub length-keep_if-le : (p : A → Bool) (xs : List A) → length (keep_if p xs) ≤ length xs
  length-keep_if-le p [] = omega arith
  length-keep_if-le p (x ∷ xs) = ground (arith, length-keep_if-le p xs)

  pub All-append {κ} :
      (P : A → Type κ) (front back : List A) → All P front → All P back → All P (front ++ back)
  All-append P [] back none_yet all = all
  All-append P (x ∷ front) back (first, others) all = (first, All-append P front back others all)

pub List-cases {ℓ} :
    {A : Type ℓ} (xs : List A) → (xs ≡ []) ⊎ ((x : A) × (ys : List A) × (xs ≡ x ∷ ys))
List-cases [] = inl refl
List-cases (x ∷ xs) = inr (x, xs, refl)

-- What passes a filter is in the list and passes the test.
pub keep_if-Mem {ℓ} :
    {A : Type ℓ} (p : A → Bool) (a : A) (xs : List A)
    → Memᴰ a (keep_if p xs)
    → Memᴰ a xs × (p a ≡ true)
keep_if-Mem p a [] h = elim h [ ]
keep_if-Mem p a (x ∷ xs) h = elim (Bool-cases (p x)) [
  | inl pass ↦ elim (rw pass at h) [
    | Memᴰ.head e ↦ (Memᴰ.head e, ap p e ∙ pass)
    | Memᴰ.tail later ↦ let (there, passes) = keep_if-Mem p a xs later in (Memᴰ.tail there, passes)
  ]
  | inr fail ↦ let (there, passes) = keep_if-Mem p a xs (rw fail at h) in (Memᴰ.tail there, passes)
]

pub Mem-keep_if {ℓ} :
    {A : Type ℓ} (p : A → Bool) (a : A) (xs : List A)
    → Memᴰ a xs
    → p a ≡ true
    → Memᴰ a (keep_if p xs)
Mem-keep_if p a [] h pass = elim h [ ]
Mem-keep_if p a (x ∷ xs) (Memᴰ.head e) pass = rw (sym (ap p e) ∙ pass) (Memᴰ.head e)
Mem-keep_if p a (x ∷ xs) (Memᴰ.tail later) pass =
    let there = Mem-keep_if p a xs later pass in
    elim (Bool-cases (p x)) [
      | inl kept ↦ rw kept (Memᴰ.tail there)
      | inr dropped ↦ rw dropped there
    ]

pub Mem-append_left {ℓ} : {A : Type ℓ} (a : A) (xs ys : List A) → Memᴰ a xs → Memᴰ a (xs ++ ys)
Mem-append_left a [] ys h = elim h [ ]
Mem-append_left a (x ∷ xs) ys (Memᴰ.head e) = Memᴰ.head e
Mem-append_left a (x ∷ xs) ys (Memᴰ.tail later) = Memᴰ.tail (Mem-append_left a xs ys later)

pub Mem-append_right {ℓ} : {A : Type ℓ} (a : A) (xs ys : List A) → Memᴰ a ys → Memᴰ a (xs ++ ys)
Mem-append_right a [] ys h = h
Mem-append_right a (x ∷ xs) ys h = Memᴰ.tail (Mem-append_right a xs ys h)

pub Mem-append {ℓ} :
    {A : Type ℓ} (a : A) (xs ys : List A) → Memᴰ a (xs ++ ys) → Memᴰ a xs ⊎ Memᴰ a ys
Mem-append a [] ys h = inr h
Mem-append a (x ∷ xs) ys (Memᴰ.head e) = inl (Memᴰ.head e)
Mem-append a (x ∷ xs) ys (Memᴰ.tail later) = elim (Mem-append a xs ys later) [
  | inl l ↦ inl (Memᴰ.tail l)
  | inr r ↦ inr r
]

-- the first element that passes, and that none passes
pub find_first-Mem {ℓ} :
    {A : Type ℓ} (p : A → Bool) (a : A) (xs : List A)
    → find_first p xs ≡ some a
    → Memᴰ a xs × (p a ≡ true)
find_first-Mem p a [] h = cc
find_first-Mem p a (x ∷ xs) h = elim (Bool-cases (p x)) [
  | inl pass ↦ let e = some-injective _ _ (rw pass at h) in (Memᴰ.head (sym e), ap p (sym e) ∙ pass)
  | inr fail ↦
      let (there, passes) = find_first-Mem p a xs (rw fail at h) in (Memᴰ.tail there, passes)
]

pub find_first-none {ℓ} :
    {A : Type ℓ} (p : A → Bool) (xs : List A) → find_first p xs ≡ none → All (λ a. p a ≡ false) xs
find_first-none p [] h = tt
find_first-none p (x ∷ xs) h = elim (Bool-cases (p x)) [
  | inl pass ↦ cc (rw pass at h)
  | inr fail ↦ (fail, find_first-none p xs (rw fail at h))
]

pub find_first_ext {ℓ} :
    {A : Type ℓ} (p q : A → Bool) (xs : List A)
    → ((a : A) → p a ≡ q a)
    → find_first p xs ≡ find_first q xs
find_first_ext p q [] same = refl
find_first_ext p q (x ∷ xs) same = rw (same x, find_first_ext p q xs same) refl

pub All-mono {ℓ κ μ} :
    {A : Type ℓ} (P : A → Type κ) (Q : A → Type μ) (xs : List A)
    → ((a : A) → P a → Q a)
    → All P xs
    → All Q xs
All-mono P Q [] weaken h = tt
All-mono P Q (x ∷ xs) weaken h = (weaken x h.0, All-mono P Q xs weaken h.1)
