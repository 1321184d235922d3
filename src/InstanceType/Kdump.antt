-- ===== src/InstanceType/Kdump.antt =====
-- pkg/providers/instancetype/kdump.go: the memory that kdump takes on a machine.
use karpenter_provider_tke.Prelude.{
  ◌-◌, ◌*◌, ◌^◌, ◌≤◌, ◌≡◌, List, [], ◌∷◌, ◌||◌, arith, if◌then◌else◌, ℕ, ℤ, pos, ltb_ℤ, leb_ℤ, ltb,
}

pub record Kdump : Type 0 where
  pub low : ℤ
  pub high : ℤ
  pub reserved : ℤ

abbrev mi : ℕ
mi = 1024 * 1024

abbrev pub gi : ℕ
gi = 1024 * 1024 * 1024

-- KdumpLevels; math.MaxInt32 is 2 ^ 31 - 1.
abbrev pub kdump_levels : List Kdump
kdump_levels =
    record { low = pos (1800 * mi); high = pos (64 * gi); reserved = pos (256 * mi) }
    ∷ record { low = pos (64 * gi); high = pos (128 * gi); reserved = pos (512 * mi) }
    ∷ record { low = pos (128 * gi); high = pos (2 ^ 31 - 1); reserved = pos (768 * mi) }
    ∷ []

-- Kdump.eval
pub eval_level : Kdump → ℤ → ℤ
eval_level k resource = if ltb_ℤ resource k.low || leb_ℤ k.high resource then pos 0 else k.reserved

-- the loop of Kdumps.eval, with its variable `res`
eval_loop : List Kdump → ℤ → ℤ → ℤ
eval_loop [] resource res = res
eval_loop (k ∷ ks) resource res =
    let next = eval_level k resource in
    let rest = eval_loop ks resource next in if ltb_ℤ (pos 0) next then next else rest

-- Kdumps.eval
unfoldable pub eval : List Kdump → ℤ → ℤ
unfolding eval_level eval_loop
eval ks resource = eval_loop ks resource (pos 0)

-- kdump takes nothing below 1800 MiB, 256 MiB from there up to 64 GiB, 512 MiB from there up to
-- 128 GiB, and nothing from 128 GiB on.
pub eval-kdump_levels :
    (m : ℕ)
    → eval kdump_levels (pos m) ≡ (
        if ltb m (1800 * mi)
        then pos 0
        else if ltb m (64 * gi)
        then pos (256 * mi)
        else if ltb m (128 * gi)
        then pos (512 * mi)
        else pos 0)
unfolding eval
eval-kdump_levels m = ground arith

-- What kdump takes is at most half of the memory that it is computed from.
pub eval-le : (m : ℕ) (r : ℕ) → eval kdump_levels (pos m) ≡ pos r → 2 * r ≤ m
unfolding eval
eval-le m r h = ground arith
