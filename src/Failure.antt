-- ===== src/Failure.antt =====
-- pkg/controllers/nodeclaim/failure/controller.go: machines that fail to start are counted or
-- blocked, and deleted with their NodeClaims. One reading of the clock, `now`, serves a whole
-- reconciliation, and the deletions, which the code runs on parallel workers, run one after another
-- here.
pub mod Safety
pub mod Progress
pub mod Blocks
use karpenter_provider_tke.Prelude.{
  ℕ, ◌+◌, ◌-◌, ◌*◌, ◌^◌, String, ◌==◌, Bool, true, false, not, ◌&&◌, ◌||◌, Option, none, some, List,
  [], ◌∷◌, ◌++◌, if◌then◌else◌, ltb, leb, keep_if, any_of, text_at, Error, Result, ok, err,
  ignore_not_found, is_empty,
}
use karpenter_provider_tke.Labels
use karpenter_provider_tke.Strconv.{◌<>◌, contains, is_blank}
use karpenter_provider_tke.Kube.{
  OwnerReference, Machine, Write, delete_nodeclaim, delete_machine, History, Kube, text_of, send,
  nodeclaim_kind,
}
use karpenter_provider_tke.InstanceType.Blacklist.{
  Cache, block_instance_type, get_insufficient_failure_count, add_insufficient_failure,
}

-- the tests that both filters share: no provider ID, a NodeClaim among the owners, and older than
-- 30 seconds
unfoldable pub is_stuck : ℕ → Machine → Bool
is_stuck now m =
    text_of m.provider_id == ""
    && any_of (λ (r : OwnerReference). r.kind == nodeclaim_kind) m.owners
    && ltb (30 * 10 ^ 9) (now - m.created)

-- the failures that count as a lack of resources
unfoldable pub lacks_resources : Machine → Bool
lacks_resources m =
    let message = text_of m.failure_message in
    text_of m.failure_reason == "InvalidConfiguration"
    && (contains message "Insufficient resources of"
        || contains message "InvalidParameterValue.InsufficientOffering"
        || contains message "ResourceInsufficient.SpecifiedInstanceType"
        || contains message "LimitExceeded.SpotQuota")

-- the instance type that blockInstanceTypes blocks
unfoldable pub blocked_type : Machine → String → String
blocked_type m ins_type =
    if contains (text_of m.failure_message) "LimitExceeded.UserSpotQuota" then "*" else ins_type

-- The rest of the program, as this controller meets it: the API server, ProviderSpecFromRawExtension
-- (its instance type), whether the node class of a name is found, and whether a fresh listing of
-- instance types for it succeeds.
pub record Env : Type 0 where
  pub kube : Kube
  pub instance_type_of : String → Result String
  pub has_nodeclass : String → Bool
  pub lists : String → Bool

module _ (cache : Cache) (env : Env) (now : ℕ) where
  open cache use {C}

  -- isFailureWithInsufficientResources, from the decoded instance type on
  unfoldable pub few_failures : C → Machine → String → Bool
  few_failures c m ins_type =
      let capacity_type = text_at Labels.capacity_type_label_key m.labels in
      let of_type = get_insufficient_failure_count cache c now ins_type capacity_type m.zone in
      let of_all = get_insufficient_failure_count cache c now "*" capacity_type m.zone in
      if capacity_type == Labels.capacity_type_spot && ltb 50 of_all
      then false
      else not (ltb 3 of_type)

  -- isFailureWithInsufficientResources
  unfoldable pub is_failure_with_insufficient_resources : C → Machine → Bool
  is_failure_with_insufficient_resources c m =
      if lacks_resources m
      then (elim (env.instance_type_of m.raw_spec) [
        | ok ins_type ↦ few_failures c m ins_type
        | err e ↦ false
      ])
      else false

  unfoldable pub insufficient_machines : C → List Machine → List Machine
  insufficient_machines c ms =
      keep_if (λ m. is_stuck now m && is_failure_with_insufficient_resources c m) ms

  unfoldable pub unknown_failure_machines : C → List Machine → List Machine
  unknown_failure_machines c ms =
      keep_if
        (λ m.
          is_stuck now m
          && not (text_of m.failure_message == "")
          && not (is_failure_with_insufficient_resources c m))
        ms

  -- the counts of refreshInstanceTypes for one machine
  unfoldable pub add_failures : C → String → String → String → C
  add_failures c ins_type capacity_type zone =
      let counted = add_insufficient_failure cache c now ins_type capacity_type zone in
      if capacity_type == Labels.capacity_type_spot
      then add_insufficient_failure cache counted now "*" capacity_type zone
      else counted

  -- refreshInstanceTypes. The number is how often the instance types have been listed; the flag is
  -- `isRefreshed`.
  unfoldable pub refresh_instance_types : List Machine → Bool → ℕ → C → C × ℕ
  refresh_instance_types [] is_refreshed listings c = (c, listings)
  refresh_instance_types (m ∷ ms) is_refreshed listings c =
      let class_name = text_at Labels.label_node_class m.labels in
      elim (not (class_name == "") && env.has_nodeclass class_name) [
        | false ↦ refresh_instance_types ms is_refreshed listings c
        | true ↦ elim (env.instance_type_of m.raw_spec) [
          | err e ↦ refresh_instance_types ms is_refreshed listings c
          | ok ins_type ↦
              let counted =
                add_failures c ins_type (text_at Labels.capacity_type_label_key m.labels) m.zone in
              elim is_refreshed [
                | true ↦ refresh_instance_types ms true listings counted
                | false ↦ refresh_instance_types ms (env.lists class_name) (listings + 1) counted
              ]
        ]
      ]

  -- one turn of blockInstanceTypes
  unfoldable pub block_machine : Machine → C → C
  block_machine m c = elim (env.instance_type_of m.raw_spec) [
    | err e ↦ c
    | ok ins_type ↦
        block_instance_type cache c now (blocked_type m ins_type)
          (text_at Labels.capacity_type_label_key m.labels) m.zone
  ]

  -- blockInstanceTypes
  unfoldable pub block_instance_types : List Machine → C → C
  block_instance_types [] c = c
  block_instance_types (m ∷ ms) c = block_instance_types ms (block_machine m c)

  -- deleteFailureMachine, from the owners on: the `break` leaves the loop after the first one.
  unfoldable pub delete_owned : List OwnerReference → String → History → Result (Unit {0}) × History
  delete_owned [] name h = (ok tt, h)
  delete_owned (owner ∷ others) name h = elim (owner.kind == nodeclaim_kind) [
    | false ↦ (ok tt, h)
    | true ↦
        let deleted = delete_nodeclaim owner.name ∷ h in
        elim (env.kube.write h (delete_nodeclaim owner.name)) [
          | err e ↦ (ignore_not_found (err e), deleted)
          | ok u ↦ (
            ignore_not_found (env.kube.write deleted (delete_machine name)),
            delete_machine name ∷ deleted,
          )
        ]
  ]

  -- deleteFailureMachine
  unfoldable pub delete_failure_machine : Machine → History → Result (Unit {0}) × History
  delete_failure_machine m h = delete_owned m.owners m.name h

  -- the errors that are not nil, of the workers in turn
  unfoldable pub delete_failure_machines : List Machine → History → List Error × History
  delete_failure_machines [] h = ([], h)
  delete_failure_machines (m ∷ ms) h =
      let (answer, after) = delete_failure_machine m h in
      let (errors, last) = delete_failure_machines ms after in
      (elim answer [ ok u ↦ errors | err e ↦ e ∷ errors ], last)

  pub record State : Type 0 where
    pub blacklist : C
    pub successful_count : ℕ
    pub history : History

  -- The end of Reconcile: the answer, with the seconds after which it runs again, and the count.
  -- multierr.Combine is an error if there is one among its arguments.
  unfoldable pub finish : List Error → ℕ → Result ℕ × ℕ
  finish [] n = (ok (if leb (n + 1) 20 then 10 else 60), n + 1)
  finish (e ∷ es) n = (err e, n)

  -- Reconcile
  unfoldable pub reconcile : State → Result ℕ × State
  reconcile s = elim (env.kube.list_machines s.history) [
    | err e ↦ (err e, s)
    | ok ms ↦
        let insufficient = insufficient_machines s.blacklist ms in
        let (refreshed, listings) = refresh_instance_types insufficient false 0 s.blacklist in
        let unknown = unknown_failure_machines refreshed ms in
        let blacklist = block_instance_types unknown refreshed in
        let (errors, history) = delete_failure_machines (insufficient ++ unknown) s.history in
        let (answer, n) = finish errors s.successful_count in
        (answer, record { blacklist = blacklist; successful_count = n; history = history })
  ]
