-- ===== src/InstanceType/Level.antt =====
-- pkg/providers/instancetype/level.go: a reserve that grows piece by piece with a resource.
use karpenter_provider_tke.Prelude.{
  ℕ, ◌*◌, ◌/◌, List, [], ◌∷◌, if◌then◌else◌, ℤ, pos, pos_part, ltb_ℤ, ◌-ℤ◌, wrap64,
}

-- The machine's float64, as far as the code goes: constants, conversion from int64, arithmetic, the
-- conversion to int64, and math.Ceil as an integer. `F` is the type of the values.
pub record Float64 : Type 1 where
  pub F : Type 0
  pub ratio : ℕ → ℕ → F
  pub of_int : ℤ → F
  pub mul : F → F → F
  pub add : F → F → F
  pub sub : F → F → F
  pub div : F → F → F
  pub trunc : F → ℤ
  pub ceil : F → ℤ

pub record Level (F : Type 0) : Type 0 where
  pub low : ℤ
  pub high : ℤ
  pub base : ℤ
  pub fact : F

module _ (fl : Float64) where
  open fl use {F, of_int, mul, add, trunc}

  -- Level.eval
  unfoldable pub eval_level : Level F → ℤ → F
  eval_level l resource =
      if ltb_ℤ resource l.low
      then of_int (pos 0)
      else if ltb_ℤ resource l.high
      then add (mul (of_int (wrap64 (resource -ℤ l.low))) l.fact) (of_int l.base)
      else add (mul (of_int (wrap64 (l.high -ℤ l.low))) l.fact) (of_int l.base)

  -- the loop of Levels.eval, with its variable `res`
  unfoldable pub eval_loop : List (Level F) → ℤ → F → F
  eval_loop [] fraction res = res
  eval_loop (l ∷ ls) fraction res = eval_loop ls fraction (add res (eval_level l fraction))

  -- Levels.eval
  unfoldable pub eval : List (Level F) → ℤ → ℤ
  eval ls fraction = trunc (eval_loop ls fraction (of_int (pos 0)))

-- Floats by decimal fractions of six digits: exact on the constants of the program.
abbrev pub decimal : Float64
decimal = record {
  F = ℕ;
  ratio = λ n d. n * 1000000 / d;
  of_int = λ z. pos_part z * 1000000;
  mul = λ a b. a * b / 1000000;
  add = λ a b. Prim.Native.Nat.◌+◌ a b;
  sub = λ a b. Prim.Native.Nat.◌-◌ a b;
  div = λ a b. a * 1000000 / b;
  trunc = λ a. pos (a / 1000000);
  ceil = λ a. pos (Prim.Native.Nat.◌+◌ a 999999 / 1000000);
}
