-- ===== src/Failure/Progress.antt =====
-- What the failure controller gets done.
use mathlib.Core.List.{Memᴰ}
use karpenter_provider_tke.Prelude.{
  ℕ, ◌+◌, ◌≡◌, refl, subst, ap, ◌∙◌, sym, String, ◌==◌, List, [], ◌∷◌, ◌++◌, if◌then◌else◌, leb, ok,
  ignore_not_found, Bool-cases, Result-cases, inl, inr, ◌⊎◌, Mem-append_left, Mem-append_right,
  arith,
}
use karpenter_provider_tke.Kube.{
  OwnerReference, Machine, Write, delete_nodeclaim, delete_machine, History, nodeclaim_kind,
}
use karpenter_provider_tke.InstanceType.Blacklist.{Cache}
use karpenter_provider_tke.Failure.{
  Env, delete_owned, delete_failure_machine, delete_failure_machines, insufficient_machines,
  unknown_failure_machines, finish, State, reconcile,
}
use karpenter_provider_tke.Failure.Blocks.{refreshed}

module _ (cache : Cache) (env : Env) (now : ℕ) where
  open cache use {C}

  delete_owned-done :
      (name : String) (o : OwnerReference) (others : List OwnerReference) (h : History)
      → ((h : History) (w : Write) → env.kube.write h w ≡ ok tt)
      → o.kind ≡ nodeclaim_kind
      → delete_owned cache env now (o ∷ others) name h
        ≡ (ok tt, delete_machine name ∷ delete_nodeclaim o.name ∷ h)
  unfolding delete_owned
  delete_owned-done name o others h works kind =
      rw
        (
          delete_owned,
          kind,
          works h (delete_nodeclaim o.name),
          ignore_not_found,
          works (delete_nodeclaim o.name ∷ h) (delete_machine name),
        )
        refl

  delete_owned-ok :
      (name : String) (owners : List OwnerReference) (h : History)
      → ((h : History) (w : Write) → env.kube.write h w ≡ ok tt)
      → (delete_owned cache env now owners name h).0 ≡ ok tt
  unfolding delete_owned
  delete_owned-ok name [] h works = refl
  delete_owned-ok name (o ∷ others) h works = ground (
    arith,
    works h (delete_nodeclaim o.name),
    works (delete_nodeclaim o.name ∷ h) (delete_machine name),
  )

  delete_owned-keeps :
      (name : String) (owners : List OwnerReference) (w : Write) (h : History)
      → Memᴰ w h
      → Memᴰ w (delete_owned cache env now owners name h).1
  unfolding delete_owned
  delete_owned-keeps name [] w h there = there
  delete_owned-keeps name (o ∷ others) w h there = elim (Bool-cases (o.kind == nodeclaim_kind)) [
    | inr other ↦ rw (other, delete_owned) there
    | inl claim ↦ elim (Result-cases (env.kube.write h (delete_nodeclaim o.name))) [
      | inr (e, refused) ↦ rw (claim, refused, delete_owned) (Memᴰ.tail there)
      | inl (u, deleted) ↦ rw (claim, deleted, delete_owned) (Memᴰ.tail (Memᴰ.tail there))
    ]
  ]

  delete_failure_machines-keeps :
      (fs : List Machine) (w : Write) (h : History)
      → Memᴰ w h
      → Memᴰ w (delete_failure_machines cache env now fs h).1
  unfolding delete_failure_machines delete_failure_machine
  delete_failure_machines-keeps [] w h there = there
  delete_failure_machines-keeps (m ∷ fs) w h there =
      delete_failure_machines-keeps fs w _ (delete_owned-keeps m.name m.owners w h there)

  delete_failure_machines-ok :
      (fs : List Machine) (h : History)
      → ((h : History) (w : Write) → env.kube.write h w ≡ ok tt)
      → (delete_failure_machines cache env now fs h).0 ≡ []
  unfolding delete_failure_machines delete_failure_machine
  delete_failure_machines-ok [] h works = refl
  delete_failure_machines-ok (m ∷ fs) h works =
      rw (delete_failure_machines, delete_owned-ok m.name (m.owners) h works)
        (delete_failure_machines-ok fs _ works)

  -- the machine and its first owner are deleted
  abbrev pub IsDeleted : Machine → OwnerReference → History → Type 0
  IsDeleted m o h = Memᴰ (delete_machine m.name) h × Memᴰ (delete_nodeclaim o.name) h

  delete_failure_machines-deletes :
      (fs : List Machine) (m : Machine) (o : OwnerReference) (others : List OwnerReference)
      (h : History)
      → ((h : History) (w : Write) → env.kube.write h w ≡ ok tt)
      → Memᴰ m fs
      → m.owners ≡ o ∷ others
      → o.kind ≡ nodeclaim_kind
      → IsDeleted m o (delete_failure_machines cache env now fs h).1
  unfolding delete_failure_machines delete_failure_machine
  delete_failure_machines-deletes [] m o others h works here owned kind = elim here [ ]
  delete_failure_machines-deletes (n ∷ fs) m o others h works (Memᴰ.tail there) owned kind =
      delete_failure_machines-deletes fs m o others _ works there owned kind
  delete_failure_machines-deletes (n ∷ fs) m o others h works (Memᴰ.head e) owned kind =
      let after = delete_machine m.name ∷ delete_nodeclaim o.name ∷ h in
      let step : (delete_owned cache env now n.owners n.name h).1 ≡ after =
        ap (λ x. (delete_owned cache env now x.owners x.name h).1) (sym e)
        ∙ ap (λ os. (delete_owned cache env now os m.name h).1) owned
        ∙ ap (λ x. x.1) (delete_owned-done m.name o others h works kind) in
      subst (λ a. IsDeleted m o (delete_failure_machines cache env now fs a).1) (sym step)
        (
          delete_failure_machines-keeps fs _ after (Memᴰ.head refl),
          delete_failure_machines-keeps fs _ after (Memᴰ.tail (Memᴰ.head refl)),
        )

  -- If the machines can be listed and every write is carried out, a reconciliation deletes each
  -- machine that passes one of its two filters and whose first owner is a NodeClaim, deletes that
  -- NodeClaim too, and asks to run again after 10 seconds up to the twentieth success and after 60
  -- seconds from then on.
  pub reconcile-deletes :
      (s : State cache env now) (ms : List Machine) (m : Machine) (o : OwnerReference)
      (others : List OwnerReference)
      → env.kube.list_machines s.history ≡ ok ms
      → ((h : History) (w : Write) → env.kube.write h w ≡ ok tt)
      → Memᴰ m (insufficient_machines cache env now s.blacklist ms)
        ⊎ Memᴰ m (unknown_failure_machines cache env now (refreshed cache env now s ms) ms)
      → m.owners ≡ o ∷ others
      → o.kind ≡ nodeclaim_kind
      → IsDeleted m o (reconcile cache env now s).1.history
        × ((reconcile cache env now s).0 ≡ ok (if leb (s.successful_count + 1) 20 then 10 else 60))
  unfolding reconcile finish
  reconcile-deletes s ms m o others listed works failed owned kind =
      let lacking = insufficient_machines cache env now s.blacklist ms in
      let unknown = unknown_failure_machines cache env now (refreshed cache env now s ms) ms in
      let among : Memᴰ m (lacking ++ unknown) = elim failed [
        | inl a ↦ Mem-append_left m lacking unknown a
        | inr b ↦ Mem-append_right m lacking unknown b
      ] in
      rw (listed, reconcile)
        (
          delete_failure_machines-deletes (lacking ++ unknown) m o others s.history works among
              owned kind,
          ap (λ es. (finish cache env now es s.successful_count).0)
              (delete_failure_machines-ok (lacking ++ unknown) s.history works),
        )
