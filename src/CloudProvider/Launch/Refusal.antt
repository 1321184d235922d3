-- ===== src/CloudProvider/Launch/Refusal.antt =====
-- When Create reports that there is no capacity, and what it blocks.
use karpenter_provider_tke.Prelude.{
  ℕ, ◌+◌, ◌*◌, ◌≤◌, ◌≡◌, ◌≢◌, refl, ap, ◌∙◌, String, Bool, true, false, List, [], ◌∷◌, All, keep_if,
  Error, Result, ok, err, is_ok, insufficient_capacity, Result-cases, Bool-cases, ◌⊎◌, inl, inr,
  text_at,
}
use karpenter_provider_tke.Labels
use karpenter_provider_tke.Kube.{Machine, NodeClaim, History}
use karpenter_provider_tke.Scheduling.{Scheduling, InstanceType}
use karpenter_provider_tke.Zone.{ZoneProvider}
use karpenter_provider_tke.NodeClass.{NodeClass, Ready, unknown, ready, not_ready}
use karpenter_provider_tke.InstanceType.Blacklist.{Cache, minute, block_instance_type, is_blocked}
use karpenter_provider_tke.InstanceType.Blacklist.Blocking.{is_blocked-block}
use karpenter_provider_tke.CloudProvider.Conversion.{
  Karpenter, Decoders, machine_to_nodeclaim, resolve_machine_to_instance_type,
}
use karpenter_provider_tke.CloudProvider.Launch.{
  NodeClaimSpec, Creation, refused, failed, created, Backend, resolve_node_class_from_nodeclaim,
  is_usable, resolve_instance_types, finish, launch, create_in, create,
}

err-injective {ℓ} : {A : Type ℓ} {a b : Error} → ◌≡◌ {A = Result A} (err a) (err b) → a ≡ b
err-injective h = cc

ok-injective {ℓ} : {A : Type ℓ} {a b : A} → ok a ≡ ok b → a ≡ b
ok-injective h = cc

keep_if-none {ℓ} :
    {A : Type ℓ} (p : A → Bool) (xs : List A) → keep_if p xs ≡ [] → All (λ x. p x ≡ false) xs
keep_if-none p [] h = tt
keep_if-none p (x ∷ xs) h = elim (Bool-cases (p x)) [
  | inl pass ↦ cc (rw pass at h)
  | inr fail ↦ (fail, keep_if-none p xs (rw fail at h))
]

module _ (s : Scheduling) (k : Karpenter s) (d : Decoders) (zones : ZoneProvider) (cache : Cache)
    (b : Backend s.Requirements cache.C) where
  open s use {Requirements}
  open cache use {C}

  create-failed :
      (now : ℕ) (c : C) (h after : History) (nc : NodeClaim) (spec : NodeClaimSpec Requirements)
      (class : NodeClass) (it : InstanceType Requirements) (its : List (InstanceType Requirements))
      (m : Machine) (ty : String) (e : Error)
      → resolve_node_class_from_nodeclaim s k d zones cache b h spec ≡ ok class
      → class.condition ≡ ready
      → resolve_instance_types s k d zones cache b c now class spec ≡ ok (it ∷ its)
      → b.machines.create class nc spec (it ∷ its) h ≡ (failed m ty e, after)
      → create s k d zones cache b now c h nc spec ≡ (
        err e,
        block_instance_type cache c now ty (text_at Labels.capacity_type_label_key m.labels) m.zone,
        after,
      )
  unfolding create create_in launch finish
  create-failed now c h after nc spec class it its m ty e found r types fails =
      rw (found, create) refl
      ∙ ap (create_in s k d zones cache b now c h class nc spec) r
      ∙ ap (launch s k d zones cache b now c h class nc spec) types
      ∙ ap (finish s k d zones cache b now c) fails

  -- If the node class is ready, some instance type can be used, and the machine provider fails
  -- after it has built a machine, Create returns its error and blocks the instance type in the
  -- machine's zone and capacity type for thirty minutes.
  pub create-blocks :
      (now : ℕ) (c : C) (h after : History) (nc : NodeClaim) (spec : NodeClaimSpec Requirements)
      (class : NodeClass) (it : InstanceType Requirements) (its : List (InstanceType Requirements))
      (m : Machine) (ty : String) (e : Error) (later : ℕ)
      → resolve_node_class_from_nodeclaim s k d zones cache b h spec ≡ ok class
      → class.condition ≡ ready
      → resolve_instance_types s k d zones cache b c now class spec ≡ ok (it ∷ its)
      → b.machines.create class nc spec (it ∷ its) h ≡ (failed m ty e, after)
      → now ≤ later
      → later ≤ now + 30 * minute
      → ((create s k d zones cache b now c h nc spec).0 ≡ err e)
        × ((create s k d zones cache b now c h nc spec).2 ≡ after)
        × (is_blocked cache
              (create s k d zones cache b now c h nc spec).1
              later
              ty
              (text_at Labels.capacity_type_label_key m.labels)
              m.zone
            ≡ true)
  create-blocks now c h after nc spec class it its m ty e later found r types fails l t =
      rw (create-failed now c h after nc spec class it its m ty e found r types fails) (
        refl,
        refl,
        is_blocked-block cache c now later _ _ _ _ _ _ l t (inl refl) (inl refl) (inl refl),
      )

  abbrev pub NotInsufficient : Creation → Type 0
  NotInsufficient (refused e) = e ≢ insufficient_capacity
  NotInsufficient (failed m ty e) = e ≢ insufficient_capacity
  NotInsufficient (created m ty) = Unit

  -- the node class is found, but none of the instance types that are listed for it can be used
  abbrev pub NoneUsable : ℕ → C → History → NodeClaimSpec Requirements → Type 0
  NoneUsable now c h spec =
      (class : NodeClass) × (its : List (InstanceType Requirements))
      × (resolve_node_class_from_nodeclaim s k d zones cache b h spec ≡ ok class)
      × (b.list_types c now class ≡ ok its)
      × All (λ it. is_usable s k d zones cache b spec it ≡ false) its

  converted-sufficient :
      (now : ℕ) (m : Machine) → machine_to_nodeclaim s k d zones now m ≢ err insufficient_capacity
  unfolding machine_to_nodeclaim
  converted-sufficient now m same =
      elim (Result-cases (resolve_machine_to_instance_type s k d zones m)) [
        | inl (it, e) ↦ cc (rw (machine_to_nodeclaim, e) at same)
        | inr (f, e) ↦ cc (rw (machine_to_nodeclaim, e) at same)
      ]

  finish-sufficient :
      (now : ℕ) (c : C) (r : Creation × History)
      → NotInsufficient r.0
      → (finish s k d zones cache b now c r).0 ≢ err insufficient_capacity
  unfolding finish
  finish-sufficient now c (refused e, h) other same = other (err-injective same)
  finish-sufficient now c (failed m ty e, h) other same = other (err-injective same)
  finish-sufficient now c (created m ty, h) other same = converted-sufficient now m same

  launch-insufficient :
      (now : ℕ) (c : C) (h : History) (class : NodeClass) (nc : NodeClaim)
      (spec : NodeClaimSpec Requirements) (r : Result (List (InstanceType Requirements)))
      → ((its : List (InstanceType Requirements))
          → NotInsufficient (b.machines.create class nc spec its h).0)
      → r ≢ err insufficient_capacity
      → (launch s k d zones cache b now c h class nc spec r).0 ≡ err insufficient_capacity
      → (r ≡ ok [])
        × ((launch s k d zones cache b now c h class nc spec r).1 ≡ c)
        × ((launch s k d zones cache b now c h class nc spec r).2 ≡ h)
  unfolding launch
  launch-insufficient now c h class nc spec (err e) never listed same =
      absurd (listed (ap err (err-injective same)))
  launch-insufficient now c h class nc spec (ok []) never listed same = (refl, refl, refl)
  launch-insufficient now c h class nc spec (ok (it ∷ its)) never listed same = absurd (
      finish-sufficient now c (b.machines.create class nc spec (it ∷ its) h) (never (it ∷ its))
        same)

  resolved-sufficient :
      (now : ℕ) (c : C) (class : NodeClass) (spec : NodeClaimSpec Requirements)
      → b.list_types c now class ≢ err insufficient_capacity
      → resolve_instance_types s k d zones cache b c now class spec ≢ err insufficient_capacity
  unfolding resolve_instance_types
  resolved-sufficient now c class spec listed same =
      elim (Result-cases (b.list_types c now class)) [
        | inl (its, e) ↦ cc (rw (resolve_instance_types, e) at same)
        | inr (f, e) ↦ listed (e ∙ (rw (resolve_instance_types, e) at same))
      ]

  none_usable :
      (now : ℕ) (c : C) (class : NodeClass) (spec : NodeClaimSpec Requirements)
      → resolve_instance_types s k d zones cache b c now class spec ≡ ok []
      → (its : List (InstanceType Requirements)) × (b.list_types c now class ≡ ok its)
        × All (λ it. is_usable s k d zones cache b spec it ≡ false) its
  unfolding resolve_instance_types
  none_usable now c class spec same = elim (Result-cases (b.list_types c now class)) [
    | inl (its, e) ↦
        (its, e, keep_if-none _ its (ok-injective (rw (resolve_instance_types, e) at same)))
    | inr (f, e) ↦ cc (rw (resolve_instance_types, e) at same)
  ]

  create_in-insufficient :
      (now : ℕ) (c : C) (h : History) (class : NodeClass) (nc : NodeClaim)
      (spec : NodeClaimSpec Requirements) (r : Ready)
      → ((its : List (InstanceType Requirements))
          → NotInsufficient (b.machines.create class nc spec its h).0)
      → b.list_types c now class ≢ err insufficient_capacity
      → (create_in s k d zones cache b now c h class nc spec r).0 ≡ err insufficient_capacity
      → (resolve_instance_types s k d zones cache b c now class spec ≡ ok [])
        × ((create_in s k d zones cache b now c h class nc spec r).1 ≡ c)
        × ((create_in s k d zones cache b now c h class nc spec r).2 ≡ h)
  unfolding create_in
  create_in-insufficient now c h class nc spec unknown never listed same = cc
  create_in-insufficient now c h class nc spec (not_ready message) never listed same = cc
  create_in-insufficient now c h class nc spec ready never listed same =
      launch-insufficient now c h class nc spec _ never
        (resolved-sufficient now c class spec listed) same

  -- If neither the machine provider's Create nor the list of instance types reports insufficient
  -- capacity and Create of the cloud provider does, then it has written and blocked nothing, and
  -- the node class cannot be found or is being deleted, or none of the instance types that are
  -- listed for it can be used.
  pub create-insufficient :
      (now : ℕ) (c : C) (h : History) (nc : NodeClaim) (spec : NodeClaimSpec Requirements)
      → ((class : NodeClass) (its : List (InstanceType Requirements))
          → NotInsufficient (b.machines.create class nc spec its h).0)
      → ((class : NodeClass) → b.list_types c now class ≢ err insufficient_capacity)
      → (create s k d zones cache b now c h nc spec).0 ≡ err insufficient_capacity
      → ((create s k d zones cache b now c h nc spec).1 ≡ c)
        × ((create s k d zones cache b now c h nc spec).2 ≡ h)
        × ((is_ok (resolve_node_class_from_nodeclaim s k d zones cache b h spec) ≡ false)
            ⊎ NoneUsable now c h spec)
  unfolding create
  create-insufficient now c h nc spec never listed same =
      elim (Result-cases (resolve_node_class_from_nodeclaim s k d zones cache b h spec)) [
        | inr (e, missing) ↦ rw (create, missing) (refl, refl, inl refl)
        | inl (class, found) ↦
            let (empty, blocks, writes) =
              create_in-insufficient now c h class nc spec class.condition (never class)
                (listed class) (rw (create, found) at same) in
            let (its, e, unusable) = none_usable now c class spec empty in
            rw (create, found) (blocks, writes, inr (class, its, refl, e, unusable))
      ]
