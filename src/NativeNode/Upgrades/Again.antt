-- ===== src/NativeNode/Upgrades/Again.antt =====
-- Setting the defaults of a rolling upgrade.
use karpenter_provider_tke.Prelude.{
  ◌≡◌, ◌↔◌, refl, ap, String, ◌==◌, true, false, Option, none, some, ℤ, pos,
}
use karpenter_provider_tke.NativeNode.Duplicates.{remove_duplicate}
use karpenter_provider_tke.NativeNode.Duplicates.InPlace.{firsts, remove_duplicate-firsts}
use karpenter_provider_tke.NativeNode.Defaults.Spec.{
  IsNamed, text_or_idem, list_or_idem, list_or_idem-IsNamed,
}
use karpenter_provider_tke.NativeNode.Upgrades.{
  int, RollingUpgrade, available_weekly_periods, default_components, pointer_or, default_duration,
  set_defaults_rolling_upgrade_spec, set_defaults_rolling_upgrade,
}

pointer_or_idem {ℓ} :
    {A : Type ℓ} (d : A) (o : Option A) → pointer_or d (pointer_or d o) ≡ pointer_or d o
pointer_or_idem d none = refl
pointer_or_idem d (some a) = refl

weekly_fixed : remove_duplicate available_weekly_periods ≡ available_weekly_periods
unfolding firsts
weekly_fixed = remove_duplicate-firsts available_weekly_periods

components_fixed : remove_duplicate default_components ≡ default_components
unfolding firsts
components_fixed = remove_duplicate-firsts default_components

module _ (duration_string : ℤ → String)
    (printed : (d : ℤ) → (duration_string d == "") ≡ false) where
  duration_kept : (d : ℤ) → default_duration duration_string d ≡ d
  duration_kept d = rw (printed d) refl

  -- If no duration prints as the empty text, the defaults of a rolling upgrade leave its duration
  -- as it is, and setting them a second time changes nothing exactly if the weekly period and the
  -- components are each an empty list or have a text that is not empty.
  pub set_defaults_rolling_upgrade_idem :
      (r : RollingUpgrade)
      → ((set_defaults_rolling_upgrade duration_string r).spec.upgrade_options.duration
          ≡ r.spec.upgrade_options.duration)
        × ((set_defaults_rolling_upgrade duration_string
                (set_defaults_rolling_upgrade duration_string r)
              ≡ set_defaults_rolling_upgrade duration_string r)
            ↔ (IsNamed r.spec.upgrade_options.weekly_period × IsNamed r.spec.components))
  unfolding set_defaults_rolling_upgrade set_defaults_rolling_upgrade_spec
  set_defaults_rolling_upgrade_idem r =
      let s = r.spec in
      let o = s.upgrade_options in
      let again : (d : ℤ)
          → default_duration duration_string (default_duration duration_string d)
            ≡ default_duration duration_string d =
        λ d. duration_kept _ in
      (
        duration_kept o.duration,
        (
          λ e. (
            list_or_idem-IsNamed available_weekly_periods o.weekly_period weekly_fixed refl
                (ap (λ (x : RollingUpgrade). x.spec.upgrade_options.weekly_period) e),
            list_or_idem-IsNamed default_components s.components components_fixed refl
                (ap (λ (x : RollingUpgrade). x.spec.components) e),
          ),
          λ (weekly, components). λ i. record r {
            name = s.machine_set_name;
            spec = record s {
              auto_upgrade = pointer_or_idem true s.auto_upgrade i;
              upgrade_options = record {
                auto_upgrade_start_time = text_or_idem "24:00" o.auto_upgrade_start_time i;
                duration = again o.duration i;
                weekly_period =
                    list_or_idem available_weekly_periods o.weekly_period weekly_fixed weekly i;
              };
              components =
                  list_or_idem default_components s.components components_fixed components i;
              strategy = record {
                strategy_type = text_or_idem "randomUpdate" s.strategy.strategy_type i;
                max_unavailable = pointer_or_idem (int (pos 1)) s.strategy.max_unavailable i;
                upgrade_timeout = pointer_or_idem (pos 120000000000) s.strategy.upgrade_timeout i;
              };
              ignore_upgrade_failures = pointer_or_idem false s.ignore_upgrade_failures i;
            };
          },
        ),
      )
