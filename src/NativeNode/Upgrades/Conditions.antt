-- ===== src/NativeNode/Upgrades/Conditions.antt =====
-- What SetCondition does to the conditions of a rolling upgrade.
use karpenter_provider_tke.Prelude.{
  ◌≡◌, refl, subst, arith, String, ◌==◌, eq_iff, false, Option, some, List, [], ◌∷◌, find_first,
  any_of, if◌then◌else◌, Bool-cases, inl, inr,
}
use karpenter_provider_tke.NativeNode.Upgrades.{RollingUpgradeCondition, set_condition}

-- the first condition of a type
abbrev pub condition_of : String → List RollingUpgradeCondition → Option RollingUpgradeCondition
condition_of t cs = find_first (λ (c : RollingUpgradeCondition). c.condition_type == t) cs

-- no two conditions have the same type
abbrev pub HaveTypes : List RollingUpgradeCondition → Type 0
HaveTypes [] = Unit
HaveTypes (c ∷ cs) =
    (any_of (λ (d : RollingUpgradeCondition). d.condition_type == c.condition_type) cs ≡ false)
    × HaveTypes cs

condition_of-set_condition :
    (cond : RollingUpgradeCondition) (t : String) (cs : List RollingUpgradeCondition)
    → condition_of t (set_condition cond cs)
      ≡ (if cond.condition_type == t then some cond else condition_of t cs)
unfolding set_condition
condition_of-set_condition cond t [] = refl
condition_of-set_condition cond t (c ∷ cs) = ground (
  arith,
  condition_of-set_condition cond t cs,
  eq_iff c.condition_type cond.condition_type,
  eq_iff cond.condition_type t,
  eq_iff c.condition_type t,
)

absent-set_condition :
    (cond : RollingUpgradeCondition) (t : String) (cs : List RollingUpgradeCondition)
    → cond.condition_type == t ≡ false
    → any_of (λ (d : RollingUpgradeCondition). d.condition_type == t) cs ≡ false
    → any_of (λ (d : RollingUpgradeCondition). d.condition_type == t) (set_condition cond cs)
      ≡ false
unfolding set_condition
absent-set_condition cond t [] other absent = rw other refl
absent-set_condition cond t (c ∷ cs) other absent =
    ground (arith, absent-set_condition cond t cs other)

differ_sym : (a b : String) → a == b ≡ false → b == a ≡ false
differ_sym a b h = ground (arith, h, eq_iff a b, eq_iff b a)

set_condition-HaveTypes :
    (cond : RollingUpgradeCondition) (cs : List RollingUpgradeCondition)
    → HaveTypes cs
    → HaveTypes (set_condition cond cs)
unfolding set_condition
set_condition-HaveTypes cond [] h = (refl, tt)
set_condition-HaveTypes cond (c ∷ cs) (fresh, h) =
    elim (Bool-cases (c.condition_type == cond.condition_type)) [
      | inl same ↦
          rw (set_condition, same)
            (
              subst
                  (λ t. any_of (λ (d : RollingUpgradeCondition). d.condition_type == t) cs ≡ false)
                  ((eq_iff c.condition_type cond.condition_type).0 same) fresh,
              h,
            )
      | inr other ↦
          rw (set_condition, other)
            (
              absent-set_condition cond c.condition_type cs (differ_sym _ _ other) fresh,
              set_condition-HaveTypes cond cs h,
            )
    ]

-- SetCondition sets the condition of its type and no other, and keeps the types apart.
pub set_condition-sets :
    (cond : RollingUpgradeCondition) (cs : List RollingUpgradeCondition)
    → ((t : String)
        → condition_of t (set_condition cond cs)
          ≡ (if cond.condition_type == t then some cond else condition_of t cs))
      × (HaveTypes cs → HaveTypes (set_condition cond cs))
set_condition-sets cond cs =
    (λ t. condition_of-set_condition cond t cs, set_condition-HaveTypes cond cs)
