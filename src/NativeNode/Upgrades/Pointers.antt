-- ===== src/NativeNode/Upgrades/Pointers.antt =====
-- The pointers of a rolling upgrade after its defaults are set.
use karpenter_provider_tke.Prelude.{◌≡◌, refl, String, Option, none, some, Bool, ℤ}
use karpenter_provider_tke.NativeNode.Upgrades.{
  IntOrString, RollingUpgrade, pointer_or, set_defaults_rolling_upgrade,
  set_defaults_rolling_upgrade_spec, max_unavailable_of, upgrade_timeout_of,
  ignores_upgrade_failures,
}

pointer_or-some {ℓ} :
    {A : Type ℓ} (default : A) (o : Option A) → (a : A) × (pointer_or default o ≡ some a)
pointer_or-some default none = (default, refl)
pointer_or-some default (some a) = (a, refl)

-- After the defaults are set, MaxUnavailable does not panic, and the timeout and the test for ignored
-- failures are not nil.
pub set_defaults_rolling_upgrade-pointers :
    (duration_string : ℤ → String) (r : RollingUpgrade)
    → ((m : IntOrString) × (max_unavailable_of (set_defaults_rolling_upgrade duration_string r)
          ≡ some m))
      × ((d : ℤ) × (upgrade_timeout_of (set_defaults_rolling_upgrade duration_string r) ≡ some d))
      × ((b : Bool) × (ignores_upgrade_failures (set_defaults_rolling_upgrade duration_string r)
            ≡ some b))
unfolding set_defaults_rolling_upgrade set_defaults_rolling_upgrade_spec
set_defaults_rolling_upgrade-pointers duration_string r = (
  pointer_or-some _ r.spec.strategy.max_unavailable,
  pointer_or-some _ r.spec.strategy.upgrade_timeout,
  pointer_or-some _ r.spec.ignore_upgrade_failures,
)
