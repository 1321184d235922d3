-- ===== src/InstanceType/Listing/Keys.antt =====
-- The keys of the provider cache are different.
use Prim.Native.Char.{code}
use text.Mathlib.TextLemmas.{cons-append}
use karpenter_provider_tke.Prelude.{
  ℕ, zero, suc, ◌≡◌, ◌≢◌, sym, refl, eq_iff, ap, ◌∙◌, arith, String, ◌==◌, Bool, true, false,
  Bool-cases, inl, inr,
}
use karpenter_provider_tke.Strconv.{◌<>◌}
use karpenter_provider_tke.InstanceType.Listing.{on_demand_key, spot_key, limits_key}

-- the code of the character at a place, 0 behind the end
abbrev code_at : ℕ → String → ℕ
code_at n String.[] = 0
code_at zero (String.◌∷◌ c s) = code c
code_at (suc n) (String.◌∷◌ c s) = code_at n s

unequal-at : (n : ℕ) (s t : String) → code_at n s ≢ code_at n t → s == t ≡ false
unequal-at n s t other = elim (Bool-cases (s == t)) [
  | inl same ↦ absurd (other (ap (code_at n) ((eq_iff s t).0 same)))
  | inr apart ↦ apart
]

abbrev has_place : ℕ → String → Bool
has_place n String.[] = false
has_place zero (String.◌∷◌ c s) = true
has_place (suc n) (String.◌∷◌ c s) = has_place n s

code_at-append : (n : ℕ) (s t : String) → has_place n s ≡ true → code_at n (s <> t) ≡ code_at n s
code_at-append n String.[] t h = cc
code_at-append zero (String.◌∷◌ c s) t h = ap (code_at 0) (cons-append c s t)
code_at-append (suc n) (String.◌∷◌ c s) t h =
    ap (code_at (suc n)) (cons-append c s t) ∙ code_at-append n s t h

-- Texts with different starts are different.
starts_differ :
    (n : ℕ) (p q s : String)
    → has_place n p ≡ true
    → has_place n q ≡ true
    → code_at n p ≢ code_at n q
    → (p <> s) == (q <> s) ≡ false
starts_differ n p q s left right other =
    unequal-at n (p <> s) (q <> s)
      (λ e. other (sym (code_at-append n p s left) ∙ e ∙ code_at-append n q s right))

pub spot-on_demand : (hash : String) → spot_key hash == on_demand_key hash ≡ false
spot-on_demand hash =
    starts_differ 15 "instance-types-spot-" "instance-types-od-" hash refl refl
      (λ e. omega (arith, e))

pub on_demand-spot : (hash : String) → on_demand_key hash == spot_key hash ≡ false
on_demand-spot hash =
    starts_differ 15 "instance-types-od-" "instance-types-spot-" hash refl refl
      (λ e. omega (arith, e))

pub on_demand-limits : (hash : String) → on_demand_key hash == limits_key hash ≡ false
on_demand-limits hash =
    starts_differ 0 "instance-types-od-" "eni-limits-spot-" hash refl refl (λ e. omega (arith, e))

pub spot-limits : (hash : String) → spot_key hash == limits_key hash ≡ false
spot-limits hash =
    starts_differ 0 "instance-types-spot-" "eni-limits-spot-" hash refl refl (λ e. omega (arith, e))

pub flip : (a b : String) → a == b ≡ false → b == a ≡ false
flip a b h = ground (arith, h, eq_iff a b, eq_iff b a)
