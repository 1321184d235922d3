-- ===== src/Failure/Safety.antt =====
-- What the failure controller deletes: nothing but failed machines and their NodeClaims.
use mathlib.Core.List.{Memᴰ}
use karpenter_provider_tke.Prelude.{
  ℕ, ◌≡◌, ◌≢◌, refl, ◌==◌, eq_iff, true, false, List, [], ◌∷◌, ◌++◌, ok, Bool-cases, keep_if-Mem,
  Mem-append, Result-cases, inl, inr, arith,
}
use karpenter_provider_tke.Kube.{
  OwnerReference, Machine, Write, delete_nodeclaim, delete_machine, patch_nodeclaim_status,
  patch_machine_status, create_machine, History, text_of, nodeclaim_kind, Adds, Adds-trans,
}
use karpenter_provider_tke.InstanceType.Blacklist.{Cache}
use karpenter_provider_tke.Failure.{
  is_stuck, lacks_resources, Env, is_failure_with_insufficient_resources, insufficient_machines,
  unknown_failure_machines, delete_owned, delete_failure_machine, delete_failure_machines,
  refresh_instance_types, State, reconcile,
}

-- A machine without provider ID that is owned by a NodeClaim, is older than 30 seconds and reports a
-- failure.
abbrev pub Failed : ℕ → Machine → Type 0
Failed now m = (is_stuck now m ≡ true) × (text_of m.failure_message ≢ "")

-- `w` deletes a failed machine of `ms`, or its first owner, a NodeClaim.
pub Justified : ℕ → List Machine → Write → Type 0
Justified now ms (delete_machine n) = (m : Machine) × Memᴰ m ms × Failed now m × (n ≡ m.name)
Justified now ms (delete_nodeclaim n) =
    (m : Machine) × (o : OwnerReference) × (others : List OwnerReference) × Memᴰ m ms
    × Failed now m
    × (m.owners ≡ o ∷ others)
    × (o.kind ≡ nodeclaim_kind)
    × (n ≡ o.name)
Justified now ms (patch_nodeclaim_status nc) = ⊥
Justified now ms (patch_machine_status m) = ⊥
Justified now ms (create_machine m spec) = ⊥

lacks_resources-ne : (m : Machine) → lacks_resources m ≡ true → text_of m.failure_message ≢ ""
unfolding lacks_resources
lacks_resources-ne m h e = ground (arith, rw e at h)

module _ (cache : Cache) (env : Env) (now : ℕ) where
  open cache use {C}

  delete_owned-Adds :
      (ms : List Machine) (m : Machine) (owners : List OwnerReference) (h : History)
      → Memᴰ m ms
      → Failed now m
      → m.owners ≡ owners
      → Adds (Justified now ms) h (delete_owned cache env now owners m.name h).1
  unfolding delete_owned Justified
  delete_owned-Adds ms m [] h here failed owned = ([], refl, tt)
  delete_owned-Adds ms m (o ∷ others) h here failed owned =
      elim (Bool-cases (o.kind == nodeclaim_kind)) [
        | inr other ↦ rw (other, delete_owned) ([], refl, tt)
        | inl claim ↦
            let first : Justified now ms (delete_nodeclaim o.name) =
              (m, o, others, here, failed, owned, (eq_iff o.kind nodeclaim_kind).0 claim, refl) in
            elim (Result-cases (env.kube.write h (delete_nodeclaim o.name))) [
              | inr (e, refused) ↦
                  rw (claim, refused, delete_owned)
                    (delete_nodeclaim o.name ∷ [], refl, (first, tt))
              | inl (u, deleted) ↦
                  rw (claim, deleted, delete_owned)
                    (
                      delete_machine m.name ∷ delete_nodeclaim o.name ∷ [],
                      refl,
                      ((m, here, failed, refl), (first, tt)),
                    )
            ]
      ]

  delete_failure_machine-Adds :
      (ms : List Machine) (m : Machine) (h : History)
      → Memᴰ m ms
      → Failed now m
      → Adds (Justified now ms) h (delete_failure_machine cache env now m h).1
  unfolding delete_failure_machine
  delete_failure_machine-Adds ms m h here failed =
      delete_owned-Adds ms m (m.owners) h here failed refl

  delete_failure_machines-Adds :
      (ms fs : List Machine) (h : History)
      → ((m : Machine) → Memᴰ m fs → Memᴰ m ms × Failed now m)
      → Adds (Justified now ms) h (delete_failure_machines cache env now fs h).1
  unfolding delete_failure_machines
  delete_failure_machines-Adds ms [] h failed = ([], refl, tt)
  delete_failure_machines-Adds ms (m ∷ fs) h failed =
      let (here, bad) = failed m (Memᴰ.head refl) in
      Adds-trans _ _ _ _ (delete_failure_machine-Adds ms m h here bad)
        (delete_failure_machines-Adds ms fs _ (λ n later. failed n (Memᴰ.tail later)))

  insufficient-lacks :
      (c : C) (m : Machine)
      → is_failure_with_insufficient_resources cache env now c m ≡ true
      → lacks_resources m ≡ true
  unfolding is_failure_with_insufficient_resources
  insufficient-lacks c m h = ground (arith, h)

  insufficient_machines-Failed :
      (c : C) (ms : List Machine) (m : Machine)
      → Memᴰ m (insufficient_machines cache env now c ms)
      → Memᴰ m ms × Failed now m
  unfolding insufficient_machines
  insufficient_machines-Failed c ms m h =
      let (there, pass) = keep_if-Mem _ m ms h in
      let (stuck, lacking) : (is_stuck now m ≡ true)
          × (is_failure_with_insufficient_resources cache env now c m ≡ true) =
        ground (arith, pass) in
      (there, (stuck, lacks_resources-ne m (insufficient-lacks c m lacking)))

  unknown_failure_machines-Failed :
      (c : C) (ms : List Machine) (m : Machine)
      → Memᴰ m (unknown_failure_machines cache env now c ms)
      → Memᴰ m ms × Failed now m
  unfolding unknown_failure_machines
  unknown_failure_machines-Failed c ms m h =
      let (there, pass) = keep_if-Mem _ m ms h in
      let (stuck, told) : (is_stuck now m ≡ true) × (text_of m.failure_message == "" ≡ false) =
        ground (arith, pass) in
      (
        there,
        (stuck, λ blank. ground (arith, told, (eq_iff (text_of m.failure_message) "").1 blank)),
      )

  -- If the machines can be listed, a reconciliation of the failure controller writes nothing but
  -- deletions, each of a machine of the list without provider ID, with a NodeClaim owner, older
  -- than 30 seconds and with a failure message, or of the NodeClaim that is such a machine's first
  -- owner.
  pub reconcile-Justified :
      (s : State cache env now) (ms : List Machine)
      → env.kube.list_machines s.history ≡ ok ms
      → Adds (Justified now ms) s.history (reconcile cache env now s).1.history
  unfolding reconcile
  reconcile-Justified s ms listed =
      let lacking = insufficient_machines cache env now s.blacklist ms in
      let (refreshed, listings) =
        refresh_instance_types cache env now lacking false 0 s.blacklist in
      let unknown = unknown_failure_machines cache env now refreshed ms in
      rw (listed, reconcile)
        (delete_failure_machines-Adds ms (lacking ++ unknown) s.history λ m h.
          elim (Mem-append m lacking unknown h) [
            | inl a ↦ insufficient_machines-Failed s.blacklist ms m a
            | inr b ↦ unknown_failure_machines-Failed refreshed ms m b
          ])
