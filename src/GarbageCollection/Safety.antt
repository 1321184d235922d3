-- ===== src/GarbageCollection/Safety.antt =====
-- What the garbage collector deletes.
use mathlib.Core.List.{Memᴰ}
use karpenter_provider_tke.Prelude.{
  ℕ, ◌-◌, ◌*◌, ◌^◌, ◌<◌, ◌≡◌, refl, ap, ◌==◌, eq_iff, true, false, List, [], ◌∷◌, ◌⊎◌, inl, inr,
  keep_if-Mem, find_first, find_first-Mem, ok, Option-cases, Result-cases, arith,
}
use karpenter_provider_tke.Kube.{
  Machine, NodeClaim, Write, delete_machine, History, Kube, Adds, Adds-refl, Adds-trans, Adds-mono,
}
use karpenter_provider_tke.GarbageCollection.{
  CloudProvider, owned_machine, is_managed, is_resolved, garbage, clean_up, garbage_collect,
  collect_all, collect, reconcile,
}

-- A NodeClaim of the cloud provider that is managed by a cluster and not being deleted, whose machine no
-- NodeClaim of the cluster owns, and that is older than 30 seconds.
abbrev pub IsGarbage : ℕ → List NodeClaim → NodeClaim → Type 0
IsGarbage now claims nc =
    (is_managed nc ≡ true) × (is_resolved claims nc ≡ false) × (30 * 10 ^ 9 < now - nc.created)

module _ (kube : Kube) (cp : CloudProvider) (Deletes : NodeClaim → Write → Type 0) where
  -- `w` is a write of the cloud provider's Delete on a garbage NodeClaim, or deletes its machine.
  abbrev pub Collects : ℕ → List NodeClaim → List NodeClaim → Write → Type 0
  Collects now retrieved claims w =
      (nc : NodeClaim) × Memᴰ nc retrieved
      × IsGarbage now claims nc
      × (Deletes nc w ⊎ (w ≡ delete_machine (owned_machine nc)))

  -- the writes that collecting one NodeClaim may make
  abbrev Own : NodeClaim → Write → Type 0
  Own nc w = Deletes nc w ⊎ (w ≡ delete_machine (owned_machine nc))

  clean_up-Adds :
      (nc : NodeClaim) (machines : List Machine) (h : History)
      → Adds
          (Own nc)
          h
          (clean_up kube cp (find_first (λ (m : Machine). m.name == owned_machine nc) machines) h).1
  unfolding clean_up
  clean_up-Adds nc machines h =
      elim (Option-cases (find_first (λ (m : Machine). m.name == owned_machine nc) machines)) [
        | inl missing ↦ rw (missing, clean_up) (Adds-refl _ h)
        | inr (m, found) ↦
            let named = (eq_iff _ _).0 (find_first-Mem _ m machines found).1 in
            rw (found, clean_up)
              (delete_machine m.name ∷ [], refl, (inr (ap delete_machine named), tt))
      ]

  garbage_collect-Adds :
      (nc : NodeClaim) (machines : List Machine) (h : History)
      → ((nc : NodeClaim) (h : History) → Adds (Deletes nc) h (cp.delete nc h).1)
      → Adds (Own nc) h (garbage_collect kube cp nc machines h).1
  unfolding garbage_collect
  garbage_collect-Adds nc machines h obeys =
      let first = Adds-mono (Deletes nc) _ h _ (λ w d. inl d) (obeys nc h) in
      elim (Result-cases (cp.delete nc h).0) [
        | inr (e, failed) ↦ rw (failed, garbage_collect) first
        | inl (u, gone) ↦
            rw (gone, garbage_collect) (Adds-trans _ _ _ _ first (clean_up-Adds nc machines _))
      ]

  collect_all-Adds :
      (P : Write → Type 0) (ncs : List NodeClaim) (machines : List Machine) (h : History)
      → ((nc : NodeClaim) (h : History) → Adds (Deletes nc) h (cp.delete nc h).1)
      → ((nc : NodeClaim) → Memᴰ nc ncs → (w : Write) → Own nc w → P w)
      → Adds P h (collect_all kube cp ncs machines h).1
  unfolding collect_all
  collect_all-Adds P [] machines h obeys fits = Adds-refl P h
  collect_all-Adds P (nc ∷ ncs) machines h obeys fits =
      Adds-trans P _ _ _
        (Adds-mono (Own nc) P h _ (fits nc (Memᴰ.head refl))
          (garbage_collect-Adds nc machines h obeys))
        (collect_all-Adds P ncs machines _ obeys (λ other later. fits other (Memᴰ.tail later)))

  garbage-IsGarbage :
      (now : ℕ) (claims retrieved : List NodeClaim) (nc : NodeClaim)
      → Memᴰ nc (garbage now claims retrieved)
      → Memᴰ nc retrieved × IsGarbage now claims nc
  unfolding garbage
  garbage-IsGarbage now claims retrieved nc h =
      let (there, pass) = keep_if-Mem _ nc retrieved h in (there, ground (arith, pass))

  -- If the three lists can be read and the cloud provider's Delete makes only writes that a
  -- predicate allows for its NodeClaim, then every write of a reconciliation of the garbage
  -- collector is such a write for, or deletes the machine owned by, a listed NodeClaim that is
  -- managed, is not being deleted, is older than 30 seconds, and whose machine no NodeClaim of the
  -- cluster owns.
  pub reconcile-Collects :
      (now n : ℕ) (h : History) (retrieved claims : List NodeClaim) (machines : List Machine)
      → ((nc : NodeClaim) (h : History) → Adds (Deletes nc) h (cp.delete nc h).1)
      → cp.list h ≡ ok retrieved
      → kube.list_nodeclaims h ≡ ok claims
      → kube.list_machines h ≡ ok machines
      → Adds (Collects now retrieved claims) h (reconcile kube cp now n h).2
  unfolding reconcile collect
  reconcile-Collects now n h retrieved claims machines obeys r c m =
      rw (r, c, m, reconcile)
        (collect_all-Adds _ (garbage now claims retrieved) machines h obeys λ nc there w own.
          let (listed, bad) = garbage-IsGarbage now claims retrieved nc there in
          (nc, listed, bad, own))
