-- ===== src/Failure/Blocks.antt =====
-- What the failure controller blocks.
use mathlib.Core.List.{Memᴰ}
use karpenter_provider_tke.Prelude.{
  ℕ, ◌+◌, ◌*◌, ◌≤◌, ◌≡◌, subst, String, ◌==◌, true, false, List, [], ◌∷◌, text_at, ok, Bool-cases,
  Result-cases, Mem-keep_if, inl, inr, arith,
}
use karpenter_provider_tke.Labels
use karpenter_provider_tke.Kube.{Machine, text_of}
use karpenter_provider_tke.Strconv.{contains}
use karpenter_provider_tke.InstanceType.Blacklist.{
  minute, Cache, found, blocked_key, block_instance_type, is_blocked,
}
use karpenter_provider_tke.InstanceType.Blacklist.Blocking.{found-block, found-block_self}
use karpenter_provider_tke.Failure.{
  Env, is_stuck, is_failure_with_insufficient_resources, blocked_type, block_machine,
  block_instance_types, insufficient_machines, unknown_failure_machines, refresh_instance_types,
  State, reconcile,
}

module _ (cache : Cache) (env : Env) (now : ℕ) where
  open cache use {C}

  block-keeps :
      (c : C) (later : ℕ) (i k z : String) (key : String)
      → now ≤ later
      → later ≤ now + 30 * minute
      → found cache c later key ≡ true
      → found cache (block_instance_type cache c now i k z) later key ≡ true
  block-keeps c later i k z key h t there =
      rw (found-block cache c now later i k z key h) (ground (arith, there))

  block_instance_types-keeps :
      (ms : List Machine) (c : C) (later : ℕ) (key : String)
      → now ≤ later
      → later ≤ now + 30 * minute
      → found cache c later key ≡ true
      → found cache (block_instance_types cache env now ms c) later key ≡ true
  unfolding block_instance_types block_machine
  block_instance_types-keeps [] c later key h t there = there
  block_instance_types-keeps (m ∷ ms) c later key h t there =
      elim (Result-cases (env.instance_type_of m.raw_spec)) [
        | inl (i, decoded) ↦
            rw (decoded, block_machine)
              (block_instance_types-keeps ms _ later key h t
                (block-keeps c later _ _ _ key h t there))
        | inr (e, failed) ↦
            rw (failed, block_machine) (block_instance_types-keeps ms c later key h t there)
      ]

  block_instance_types-found :
      (ms : List Machine) (c : C) (later : ℕ) (m : Machine) (i : String)
      → now ≤ later
      → later ≤ now + 30 * minute
      → Memᴰ m ms
      → env.instance_type_of m.raw_spec ≡ ok i
      → found cache
          (block_instance_types cache env now ms c)
          later
          (blocked_key (blocked_type m i) (text_at Labels.capacity_type_label_key m.labels) m.zone)
        ≡ true
  unfolding block_instance_types block_machine
  block_instance_types-found [] c later m i h t here decoded = elim here [ ]
  block_instance_types-found (n ∷ ms) c later m i h t (Memᴰ.tail there) decoded =
      block_instance_types-found ms _ later m i h t there decoded
  block_instance_types-found (n ∷ ms) c later m i h t (Memᴰ.head e) decoded =
      subst
        (λ x.
          found cache (block_instance_types cache env now ms (block_machine cache env now x c))
            later
            (blocked_key (blocked_type m i) (text_at Labels.capacity_type_label_key m.labels)
              m.zone)
          ≡ true)
        e
        (rw (decoded, block_machine)
          (block_instance_types-keeps ms _ later _ h t (
            found-block_self cache c now later (blocked_type m i)
              (text_at Labels.capacity_type_label_key m.labels) m.zone h t)))

  found-is_blocked :
      (c : C) (later : ℕ) (m : Machine) (i : String) (k z : String)
      → found cache c later (blocked_key (blocked_type m i) k z) ≡ true
      → is_blocked cache c later i k z ≡ true
  unfolding is_blocked blocked_type
  found-is_blocked c later m i k z h =
      elim (Bool-cases (contains (text_of m.failure_message) "LimitExceeded.UserSpotQuota")) [
        | inl all ↦ ground (arith, (rw all at h))
        | inr one ↦ ground (arith, (rw one at h))
      ]

  -- the counts that the second filter of Reconcile reads
  abbrev pub refreshed : State cache env now → List Machine → C
  refreshed s ms =
      (refresh_instance_types cache env now (insufficient_machines cache env now s.blacklist ms)
        false 0 s.blacklist).0

  -- After a reconciliation, and up to thirty minutes after it, the offering of a listed machine is
  -- blocked, if the machine is stuck, has a failure message, is not taken for a lack of resources
  -- by the counts after the refresh, and its provider spec can be read.
  pub reconcile-blocks :
      (s : State cache env now) (ms : List Machine) (m : Machine) (i : String) (later : ℕ)
      → env.kube.list_machines s.history ≡ ok ms
      → Memᴰ m ms
      → is_stuck now m ≡ true
      → text_of m.failure_message == "" ≡ false
      → is_failure_with_insufficient_resources cache env now (refreshed s ms) m ≡ false
      → env.instance_type_of m.raw_spec ≡ ok i
      → now ≤ later
      → later ≤ now + 30 * minute
      → is_blocked cache
          (reconcile cache env now s).1.blacklist
          later
          i
          (text_at Labels.capacity_type_label_key m.labels)
          m.zone
        ≡ true
  unfolding reconcile unknown_failure_machines
  reconcile-blocks s ms m i later listed here stuck told unknown decoded h t =
      rw (listed, reconcile)
        (found-is_blocked _ later m i _ _ (
          block_instance_types-found (unknown_failure_machines cache env now (refreshed s ms) ms)
            (refreshed s ms) later m i h t
            (Mem-keep_if _ m ms here (ground (arith, stuck, told, unknown))) decoded))
