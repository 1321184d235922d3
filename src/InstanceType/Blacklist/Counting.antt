-- ===== src/InstanceType/Blacklist/Counting.antt =====
-- What the failure counts record.
use karpenter_provider_tke.Prelude.{
  ℕ, suc, ◌+◌, ◌*◌, ◌≤◌, ◌≡◌, sym, String, true, ◌==◌, eq_iff, eq_refl, List, [], ◌∷◌, length,
  arith, leb, Bool-cases, inl, inr,
}
use karpenter_provider_tke.Strconv.{Lacks}
use karpenter_provider_tke.InstanceType.Blacklist.{
  Cache, minute, count, blocked_key, failure_key, block_instance_type,
  get_insufficient_failure_count, add_insufficient_failure, is_blocked, found, counted,
}
use karpenter_provider_tke.InstanceType.Blacklist.Keys.{
  CapacityType, spelled, failure_key-injective, blocked_key-ne-failure_key,
}

module _ (cache : Cache) where
  open cache use {C, get, put, get-put}

  count-add_self :
      (c : C) (now later : ℕ) (i k z : String)
      → now ≤ later
      → later ≤ now + 60 * minute
      → get_insufficient_failure_count cache
          (add_insufficient_failure cache c now i k z)
          later
          i
          k
          z
        ≡ 1 + get_insufficient_failure_count cache c now i k z
  unfolding get_insufficient_failure_count add_insufficient_failure
  count-add_self c now later i k z h t =
      let fresh : leb later (now + 60 * minute) ≡ true = ground arith in
      rw (get-put c now (60 * minute) later _ _ _ h, eq_refl, fresh)

  -- Failures of one offering at the given times.
  pub adds : C → List ℕ → String → String → String → C
  adds c [] i k z = c
  adds c (t ∷ times) i k z = adds (add_insufficient_failure cache c t i k z) times i k z

  -- The times do not fall, and each is within an hour of the one before.
  abbrev pub Spaced : ℕ → List ℕ → ℕ → Type 0
  Spaced t [] later = (t ≤ later) × (later ≤ t + 60 * minute)
  Spaced t (u ∷ times) later = (t ≤ u) × (u ≤ t + 60 * minute) × Spaced u times later

  -- Failures of one offering that follow one another within an hour are all counted, on top of the
  -- count at the first one, up to an hour after the last.
  pub count-adds :
      (c : C) (t later : ℕ) (times : List ℕ) (inst_name capacity_type zone : String)
      → Spaced t times later
      → get_insufficient_failure_count cache
          (adds c (t ∷ times) inst_name capacity_type zone)
          later
          inst_name
          capacity_type
          zone
        ≡ get_insufficient_failure_count cache c t inst_name capacity_type zone + suc (length times)
  unfolding adds
  count-adds c t later [] i k z s = omega (arith, count-add_self c t later i k z s.0 s.1)
  count-adds c t later (u ∷ times) i k z s = omega (
    arith,
    count-adds (add_insufficient_failure cache c t i k z) u later times i k z s.2,
    count-add_self c t u i k z s.0 s.1,
  )

  -- A failure of one offering leaves the count of every other offering as it was, for instance
  -- types without a dash and the capacity types of the program.
  pub count-add_other :
      (c : C) (now later : ℕ) (i j : String) (k d : CapacityType) (z w : String)
      → now ≤ later
      → Lacks b'-' i
      → Lacks b'-' j
      → ¬ ((i ≡ j) × (k ≡ d) × (z ≡ w))
      → get_insufficient_failure_count cache
          (add_insufficient_failure cache c now i (spelled k) z)
          later
          j
          (spelled d)
          w
        ≡ get_insufficient_failure_count cache c later j (spelled d) w
  unfolding get_insufficient_failure_count add_insufficient_failure
  count-add_other c now later i j k d z w h hi hj other =
      elim (Bool-cases (failure_key i (spelled k) z == failure_key j (spelled d) w)) [
        | inl same ↦ absurd (other (failure_key-injective i j k d z w hi hj ((eq_iff _ _).0 same)))
        | inr differ ↦ rw (get-put c now (60 * minute) later _ _ _ h, differ)
      ]

  -- A count is never found as a block, so a failure blocks nothing.
  found-add :
      (c : C) (now later : ℕ) (i k z j d w : String)
      → now ≤ later
      → found cache (add_insufficient_failure cache c now i k z) later (blocked_key j d w)
        ≡ found cache c later (blocked_key j d w)
  unfolding found add_insufficient_failure
  found-add c now later i k z j d w h = elim (Bool-cases (failure_key i k z == blocked_key j d w)) [
    | inl same ↦ absurd (blocked_key-ne-failure_key j d w i k z (sym ((eq_iff _ _).0 same)))
    | inr differ ↦ ground (
      arith,
      differ,
      get-put c now (60 * minute) later (failure_key i k z) (blocked_key j d w)
          (count (1 + counted cache (get c now (failure_key i k z)))) h,
    )
  ]

  count-block :
      (c : C) (now later : ℕ) (i k z j d w : String)
      → now ≤ later
      → get_insufficient_failure_count cache (block_instance_type cache c now i k z) later j d w
        ≡ get_insufficient_failure_count cache c later j d w
  unfolding get_insufficient_failure_count block_instance_type
  count-block c now later i k z j d w h =
      elim (Bool-cases (blocked_key i k z == failure_key j d w)) [
        | inl same ↦ absurd (blocked_key-ne-failure_key i k z j d w ((eq_iff _ _).0 same))
        | inr differ ↦ rw (get-put c now (30 * minute) later _ _ _ h, differ)
      ]

  -- A failure changes no block and a block changes no count, although both are kept in one cache.
  pub blocks_and_counts_apart :
      (c : C) (now later : ℕ) (i k z j d w : String)
      → now ≤ later
      → (is_blocked cache (add_insufficient_failure cache c now i k z) later j d w
          ≡ is_blocked cache c later j d w)
        × (get_insufficient_failure_count cache (block_instance_type cache c now i k z) later j d w
            ≡ get_insufficient_failure_count cache c later j d w)
  unfolding is_blocked
  blocks_and_counts_apart c now later i k z j d w h = (
    simp (λ (x y v : String). found-add c now later i k z x y v h),
    count-block c now later i k z j d w h,
  )
