-- ===== src/InstanceType/Blacklist.antt =====
-- pkg/providers/instancetype/instancetype.go: the blocked offerings and the failure counts, which
-- share one cache. Times are in nanoseconds.
pub mod Keys
pub mod Blocking
pub mod Counting
use karpenter_provider_tke.Prelude.{
  ℕ, ◌+◌, ◌*◌, ◌^◌, ◌≤◌, ◌≡◌, String, Bool, true, false, ◌||◌, ◌==◌, Option, none, some,
  if◌then◌else◌, leb,
}
use karpenter_provider_tke.Strconv.{◌<>◌}

abbrev pub minute : ℕ
minute = 60 * 10 ^ 9

-- What the code keeps in the cache, as interface{}: a `true`, or a count.
pub data Item : Type 0 where
  blocked : Item
  count : ℕ → Item

-- go-cache, as far as the code uses it: an entry is found from when it is set until it has expired.
pub record Cache : Type 1 where
  pub C : Type 0
  pub get : C → ℕ → String → Option Item
  pub put : C → ℕ → ℕ → String → Item → C
  pub get-put :
      (c : C) (now ttl later : ℕ) (k j : String) (v : Item)
      → now ≤ later
      → get (put c now ttl k v) later j
        ≡ (if k == j then (if leb later (now + ttl) then some v else none) else get c later j)

-- "blocked-ins-%s-%s-%s"
unfoldable pub blocked_key : String → String → String → String
blocked_key inst_name capacity_type zone =
    "blocked-ins-" <> inst_name <> "-" <> capacity_type <> "-" <> zone

-- "failure-ins-%s-%s-%s"
unfoldable pub failure_key : String → String → String → String
failure_key inst_name capacity_type zone =
    "failure-ins-" <> inst_name <> "-" <> capacity_type <> "-" <> zone

module _ (cache : Cache) where
  open cache use {C, get, put}

  -- `_, ok := Get(k)`
  unfoldable pub found : C → ℕ → String → Bool
  found c now k = elim (get c now k) [ none ↦ false | some v ↦ true ]

  -- BlockInstanceType: SetDefault, with the default expiration of the cache, 30 minutes
  unfoldable pub block_instance_type : C → ℕ → String → String → String → C
  block_instance_type c now inst_name capacity_type zone =
      put c now (30 * minute) (blocked_key inst_name capacity_type zone) blocked

  abbrev counted : Option Item → ℕ
  counted (some (count n)) = n
  counted _ = 0

  -- GetInsufficientFailureCount
  unfoldable pub get_insufficient_failure_count : C → ℕ → String → String → String → ℕ
  get_insufficient_failure_count c now inst_name capacity_type zone =
      counted (get c now (failure_key inst_name capacity_type zone))

  -- AddInsufficientFailure
  unfoldable pub add_insufficient_failure : C → ℕ → String → String → String → C
  add_insufficient_failure c now inst_name capacity_type zone =
      let set_count = 1 + counted (get c now (failure_key inst_name capacity_type zone)) in
      put c now (60 * minute) (failure_key inst_name capacity_type zone) (count set_count)

  -- isBlocked
  unfoldable pub is_blocked : C → ℕ → String → String → String → Bool
  is_blocked c now inst_name capacity_type zone =
      found c now (blocked_key inst_name capacity_type zone)
      || found c now (blocked_key "*" "*" "*")
      || found c now (blocked_key inst_name capacity_type "*")
      || found c now (blocked_key inst_name "*" zone)
      || found c now (blocked_key inst_name "*" "*")
      || found c now (blocked_key "*" capacity_type zone)
      || found c now (blocked_key "*" capacity_type "*")
      || found c now (blocked_key "*" "*" zone)
