-- ===== src/Strconv.antt =====
-- What the code uses of Go's `strings` and `strconv`: Split, SplitN, Contains, HasPrefix, Itoa, Atoi.
pub mod RoundTrip
use Prim.Native.Char.{Char, code}
use Prim.Native.String
use Prim.Native.String.{find, len}
use text.Mathlib.Text.{starts_with}
use text.Mathlib.TextLemmas.{cons-append, nil-append}
use karpenter_provider_tke.Prelude.{
  ℕ, zero, suc, ◌+◌, ◌-◌, ◌*◌, ◌/◌, ◌%◌, ◌^◌, String, ◌≡◌, ◌≢◌, refl, Bool, true, false, ◌||◌,
  Option, none, some, List, [], ◌∷◌, ◌++◌, arith, Bool-cases, inl, inr, ltb, leb, eqb,
  if◌then◌else◌, ℤ, pos, negsuc,
}

infixr 65 ◌<>◌
abbrev pub ◌<>◌ : String → String → String
s <> t = String.◌++◌ s t

abbrev pub is_blank : String → Bool
is_blank String.[] = true
is_blank (String.◌∷◌ c s) = false

-- strings.HasPrefix, strings.Contains
abbrev pub has_prefix : String → String → Bool
has_prefix s p = starts_with s p

abbrev pub contains : String → String → Bool
contains s t = leb (find s t) (len s)

abbrev with_head : Char → List String → List String
with_head c [] = []
with_head c (part ∷ parts) = String.◌∷◌ c part ∷ parts

-- strings.Split by a separator of one byte
unfoldable pub split : ℕ → String → List String
split sep String.[] = "" ∷ []
split sep (String.◌∷◌ c s) =
    let parts = split sep s in if eqb (code c) sep then "" ∷ parts else with_head c parts

-- strings.SplitN(s, sep, 2): `none` stands for one part
unfoldable pub split_two : ℕ → String → Option (String × String)
split_two sep String.[] = none
split_two sep (String.◌∷◌ c s) =
    let rest = split_two sep s in
    if eqb (code c) sep
    then some ("", s)
    else elim rest [ none ↦ none | some (k, v) ↦ some (String.◌∷◌ c k, v) ]

-- strings.CutPrefix
unfoldable pub cut_prefix : String → String → Option String
cut_prefix String.[] s = some s
cut_prefix (String.◌∷◌ c p) String.[] = none
cut_prefix (String.◌∷◌ c p) (String.◌∷◌ d s) =
    let rest = cut_prefix p s in if eqb (code c) (code d) then rest else none

-- what follows the first place where a text that is not empty stands
unfoldable pub after_first : String → String → Option String
after_first p String.[] = none
after_first p (String.◌∷◌ c s) =
    let later = after_first p s in
    elim (cut_prefix p (String.◌∷◌ c s)) [ some rest ↦ some rest | none ↦ later ]

-- The second of the parts of strings.Split by a text that is not empty, where there are two.
abbrev pub second_of_two : String → String → Option String
second_of_two p s = elim (after_first p s) [
  | none ↦ none
  | some rest ↦ elim (after_first p rest) [ none ↦ some rest | some more ↦ none ]
]

-- strings.ReplaceAll(s, " ", "")
unfoldable pub without_spaces : String → String
without_spaces String.[] = ""
without_spaces (String.◌∷◌ c s) =
    let rest = without_spaces s in if eqb (code c) b' ' then rest else String.◌∷◌ c rest

abbrev pub Lacks : ℕ → String → Type 0
Lacks sep String.[] = Unit
Lacks sep (String.◌∷◌ c s) = (code c ≢ sep) × Lacks sep s

split-cons : (sep : ℕ) (s : String) → (p : String) × (ps : List String) × (split sep s ≡ p ∷ ps)
unfolding split
split-cons sep String.[] = ("", [], refl)
split-cons sep (String.◌∷◌ c s) =
    let (p, ps, e) = split-cons sep s in
    elim (Bool-cases (eqb (code c) sep)) [
      | inl hit ↦ ("", p ∷ ps, rw (e, hit))
      | inr miss ↦ (String.◌∷◌ c p, ps, rw (e, miss))
    ]

-- Splitting what was joined by the separator splits the two sides.
pub split-append :
    (sep : ℕ) (d : Char) (s t : String)
    → code d ≡ sep
    → split sep (s <> String.◌∷◌ d t) ≡ split sep s ++ split sep t
unfolding split
split-append sep d String.[] t e = rw nil-append (ground (arith, e))
split-append sep d (String.◌∷◌ c s) t e =
    let (p, ps, h) = split-cons sep s in
    elim (Bool-cases (eqb (code c) sep)) [
      | inl hit ↦ rw (cons-append, split-append sep d s t e, h, hit)
      | inr miss ↦ rw (cons-append, split-append sep d s t e, h, miss)
    ]

pub split_lacking : (sep : ℕ) (s : String) → Lacks sep s → split sep s ≡ s ∷ []
unfolding split
split_lacking sep String.[] h = refl
split_lacking sep (String.◌∷◌ c s) h = rw (split_lacking sep s h.1) (ground arith)

abbrev digit : ℕ → Char
digit zero = "0"
digit (suc zero) = "1"
digit (suc (suc zero)) = "2"
digit (suc (suc (suc zero))) = "3"
digit (suc (suc (suc (suc zero)))) = "4"
digit (suc (suc (suc (suc (suc zero))))) = "5"
digit (suc (suc (suc (suc (suc (suc zero)))))) = "6"
digit (suc (suc (suc (suc (suc (suc (suc zero))))))) = "7"
digit (suc (suc (suc (suc (suc (suc (suc (suc zero)))))))) = "8"
digit _ = "9"

-- Fuel bounds the rounds; a number below its fuel has fewer digits than that.
digits : ℕ → ℕ → String → String
digits zero n out = out
digits (suc fuel) n out =
    let rest = digits fuel (n / 10) (String.◌∷◌ (digit (n % 10)) out) in
    if eqb (n / 10) 0 then String.◌∷◌ (digit n) out else rest

-- strconv.Itoa, fmt.Sprint and %d of a number that is not negative
unfoldable pub itoa_ℕ : ℕ → String
unfolding digits
itoa_ℕ n = digits (suc n) n ""

-- strconv.Itoa
abbrev pub itoa : ℤ → String
itoa (pos n) = itoa_ℕ n
itoa (negsuc n) = String.◌∷◌ "-" (itoa_ℕ (suc n))

unfoldable pub scan : String → ℕ → Option ℕ
scan String.[] n = some n
scan (String.◌∷◌ c s) n =
    if ltb (code c) b'0' || ltb b'9' (code c) then none else scan s (n * 10 + (code c - b'0'))

-- digits, one at least, after the sign
abbrev magnitude : String → Option ℕ
magnitude String.[] = none
magnitude (String.◌∷◌ c s) = scan (String.◌∷◌ c s) 0

abbrev positive : Option ℕ → Option ℤ
positive none = none
positive (some n) = if leb n (2 ^ 63 - 1) then some (pos n) else none

abbrev negative : Option ℕ → Option ℤ
negative none = none
negative (some zero) = some (pos 0)
negative (some (suc n)) = if leb (suc n) (2 ^ 63) then some (negsuc n) else none

-- strconv.Atoi: an optional sign, decimal digits, and a value that an `int` holds; `none` is an error.
unfoldable pub atoi : String → Option ℤ
unfolding scan
atoi String.[] = none
atoi (String.◌∷◌ c s) =
    if eqb (code c) b'-'
    then negative (magnitude s)
    else if eqb (code c) b'+'
    then positive (magnitude s)
    else positive (scan (String.◌∷◌ c s) 0)

split_tests :
    (second_of_two "arg/" "beta.arg/max-pods" ≡ some "max-pods")
    × (second_of_two "arg/" "beta.arg/arg/x" ≡ none)
    × (second_of_two "arg/" "beta.max-pods" ≡ none)
    × (without_spaces " a, b " ≡ "a,b")
unfolding after_first cut_prefix without_spaces
split_tests = (refl, refl, refl, refl)

atoi_tests :
    (atoi "-42" ≡ some (negsuc 41))
    × (atoi "+7" ≡ some (pos 7))
    × (atoi "4a" ≡ none)
    × (atoi "" ≡ none)
    × (atoi "9223372036854775808" ≡ none)
    × (itoa (pos 100003) ≡ "100003")
    × (itoa (negsuc 0) ≡ "-1")
unfolding atoi itoa_ℕ
atoi_tests = (refl, refl, refl, refl, refl, refl, refl)
