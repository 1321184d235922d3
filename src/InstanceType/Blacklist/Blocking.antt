-- ===== src/InstanceType/Blacklist/Blocking.antt =====
-- Which offerings a block stops, and for how long.
use karpenter_provider_tke.Prelude.{
  ℕ, ◌+◌, ◌*◌, ◌≤◌, ◌≡◌, refl, ◌∙◌, String, true, ◌==◌, eq_iff, eq_refl, arith, if◌then◌else◌, leb,
  ◌⊎◌, inl, inr, Bool-cases,
}
use karpenter_provider_tke.Strconv.{Lacks}
use karpenter_provider_tke.InstanceType.Blacklist.{
  Cache, minute, blocked, blocked_key, block_instance_type, is_blocked, found,
}
use karpenter_provider_tke.InstanceType.Blacklist.Keys.{
  CapacityType, wildcard, spelled, blocked_key-injective,
}

module _ (cache : Cache) where
  open cache use {C, get, put, get-put}

  -- A pattern of a block: the offering's own word, or the wildcard.
  abbrev pub Covers : String → String → Type 0
  Covers pattern word = (pattern ≡ word) ⊎ (pattern ≡ "*")

  pub found-block :
      (c : C) (now later : ℕ) (i j k : String) (key : String)
      → now ≤ later
      → found cache (block_instance_type cache c now i j k) later key ≡ (
          if blocked_key i j k == key
          then leb later (now + 30 * minute)
          else found cache c later key)
  unfolding block_instance_type found
  found-block c now later i j k key h =
      ground (arith, get-put c now (30 * minute) later (blocked_key i j k) key blocked h)

  pub found-block_self :
      (c : C) (now later : ℕ) (i j k : String)
      → now ≤ later
      → later ≤ now + 30 * minute
      → found cache (block_instance_type cache c now i j k) later (blocked_key i j k) ≡ true
  found-block_self c now later i j k h t =
      rw (found-block c now later i j k _ h, eq_refl) (ground arith)

  -- Up to thirty minutes after a block, every offering is blocked whose instance type, capacity
  -- type and zone are each that of the block or stand under the block's wildcard.
  pub is_blocked-block :
      (c : C) (now later : ℕ) (pi pk pz inst_name capacity_type zone : String)
      → now ≤ later
      → later ≤ now + 30 * minute
      → Covers pi inst_name
      → Covers pk capacity_type
      → Covers pz zone
      → is_blocked cache
          (block_instance_type cache c now pi pk pz)
          later
          inst_name
          capacity_type
          zone
        ≡ true
  unfolding is_blocked
  is_blocked-block c now later pi pk pz i k z h t (inl a) (inl b) (inl d) =
      rw (a, b, d) (ground (arith, found-block_self c now later i k z h t))
  is_blocked-block c now later pi pk pz i k z h t (inl a) (inl b) (inr d) =
      rw (a, b, d) (ground (arith, found-block_self c now later i k "*" h t))
  is_blocked-block c now later pi pk pz i k z h t (inl a) (inr b) (inl d) =
      rw (a, b, d) (ground (arith, found-block_self c now later i "*" z h t))
  is_blocked-block c now later pi pk pz i k z h t (inl a) (inr b) (inr d) =
      rw (a, b, d) (ground (arith, found-block_self c now later i "*" "*" h t))
  is_blocked-block c now later pi pk pz i k z h t (inr a) (inl b) (inl d) =
      rw (a, b, d) (ground (arith, found-block_self c now later "*" k z h t))
  is_blocked-block c now later pi pk pz i k z h t (inr a) (inl b) (inr d) =
      rw (a, b, d) (ground (arith, found-block_self c now later "*" k "*" h t))
  is_blocked-block c now later pi pk pz i k z h t (inr a) (inr b) (inl d) =
      rw (a, b, d) (ground (arith, found-block_self c now later "*" "*" z h t))
  is_blocked-block c now later pi pk pz i k z h t (inr a) (inr b) (inr d) =
      rw (a, b, d) (ground (arith, found-block_self c now later "*" "*" "*" h t))

  miss :
      (pi pk pz i k z : String)
      → (blocked_key pi pk pz ≡ blocked_key i k z → ⊥)
      → (c : C) (now later : ℕ) → now ≤ later
      → found cache (block_instance_type cache c now pi pk pz) later (blocked_key i k z)
        ≡ found cache c later (blocked_key i k z)
  miss pi pk pz i k z apart c now later h =
      rw (found-block c now later pi pk pz _ h)
        (elim (Bool-cases (blocked_key pi pk pz == blocked_key i k z)) [
          | inl same ↦ absurd (apart ((eq_iff _ _).0 same))
          | inr other ↦ rw other
        ])

  -- Of the patterns that an offering asks for, those of a block that does not cover it are not its.
  apart :
      (pi i x : String) (pk k y : CapacityType) (pz z w : String)
      → ¬ (Covers pi i × ((pk ≡ k) ⊎ (pk ≡ wildcard)) × Covers pz z)
      → Lacks b'-' pi
      → Lacks b'-' x
      → Covers x i
      → (y ≡ k) ⊎ (y ≡ wildcard)
      → Covers w z
      → blocked_key pi (spelled pk) pz ≡ blocked_key x (spelled y) w
      → ⊥
  apart pi i x pk k y pz z w uncovered hp hx ci ck cz e =
      let (same, kind, zone) = blocked_key-injective pi x pk y pz w hp hx e in
      uncovered (covers same ci, covers_kind kind ck, covers zone cz)
    where
      covers : {p q r : String} → p ≡ q → Covers q r → Covers p r
      covers s (inl t) = inl (s ∙ t)
      covers s (inr t) = inr (s ∙ t)

      covers_kind :
          {p q r : CapacityType} → p ≡ q → (q ≡ r) ⊎ (q ≡ wildcard) → (p ≡ r) ⊎ (p ≡ wildcard)
      covers_kind s (inl t) = inl (s ∙ t)
      covers_kind s (inr t) = inr (s ∙ t)

  -- A block does not change whether an offering is blocked if some pattern of the block does not
  -- cover the offering, for instance types without a dash and the capacity types of the program.
  pub is_blocked-block_other :
      (c : C) (now later : ℕ) (pi inst_name : String) (pk capacity_type : CapacityType)
      (pz zone : String)
      → now ≤ later
      → Lacks b'-' pi
      → Lacks b'-' inst_name
      → ¬ (Covers pi inst_name × ((pk ≡ capacity_type) ⊎ (pk ≡ wildcard)) × Covers pz zone)
      → is_blocked cache
          (block_instance_type cache c now pi (spelled pk) pz)
          later
          inst_name
          (spelled capacity_type)
          zone
        ≡ is_blocked cache c later inst_name (spelled capacity_type) zone
  unfolding is_blocked
  is_blocked-block_other c now later pi i pk k pz z h hp hi uncovered =
      let at =
        λ (x : String) (y : CapacityType) (w : String) (hx : Lacks b'-' x) (ci : Covers x i)
            (ck : (y ≡ k) ⊎ (y ≡ wildcard)) (cz : Covers w z).
          miss pi (spelled pk) pz x (spelled y) w
            (apart pi i x pk k y pz z w uncovered hp hx ci ck cz) c now later h in
      let star : Lacks b'-' "*" = omega arith in
      rw (
        at i k z hi (inl refl) (inl refl) (inl refl),
        at "*" wildcard "*" star (inr refl) (inr refl) (inr refl),
        at i k "*" hi (inl refl) (inl refl) (inr refl),
        at i wildcard z hi (inl refl) (inr refl) (inl refl),
        at i wildcard "*" hi (inl refl) (inr refl) (inr refl),
        at "*" k z star (inr refl) (inl refl) (inl refl),
        at "*" k "*" star (inr refl) (inl refl) (inr refl),
        at "*" wildcard z star (inr refl) (inr refl) (inl refl),
      )
