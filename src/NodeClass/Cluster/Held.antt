-- ===== src/NodeClass/Cluster/Held.antt =====
-- A node class that a NodeClaim uses stays in the API server.
use mathlib.Core.List.{Memᴰ}
use mathlib.Core.Option.{some-injective}
use karpenter_provider_tke.Prelude.{
  ℕ, ◌≡◌, refl, sym, subst, ◌∙◌, String, ◌==◌, Bool, true, List, [], ◌∷◌, ◌++◌, Option, none, some,
  any_of, ok, Bool-cases, Result-cases, inl, inr, eq_refl,
}
use karpenter_provider_tke.Labels
use karpenter_provider_tke.NodeClass.{
  NodeClass, Cloud, reconcile_subnets, reconcile_security_groups, reconcile_ssh_keys,
  reconcile_readiness, reconcile_status, contains_finalizer, finalize, by_deletion,
  reconcile_termination,
}
use karpenter_provider_tke.NodeClass.Status.{add_finalizer, reconcile_stored, reconcile}
use karpenter_provider_tke.NodeClass.Cluster.{
  World, stand, patched, acted, accepting, status_run, Step, Steps, status, terminate, delete,
  use_by, here, next,
}

module _ (cloud : Cloud) (equal : NodeClass → NodeClass → Bool) (min : List ℕ → ℕ) where
  abbrev pub IsHeld : String → World → Type 0
  IsHeld user w =
      (nc : NodeClass) × (w.object ≡ some nc) × (contains_finalizer nc ≡ true) × Memᴰ user w.claims

  subnets_finalizers : (nc : NodeClass) → (reconcile_subnets cloud nc).1.finalizers ≡ nc.finalizers
  unfolding reconcile_subnets
  subnets_finalizers nc = elim (Result-cases (cloud.list_subnets nc)) [
    | inl ([], e) ↦ rw (reconcile_subnets, e) refl
    | inl (n ∷ ns, e) ↦ rw (reconcile_subnets, e) refl
    | inr (f, e) ↦ rw (reconcile_subnets, e) refl
  ]

  groups_finalizers :
      (nc : NodeClass) → (reconcile_security_groups cloud nc).1.finalizers ≡ nc.finalizers
  unfolding reconcile_security_groups
  groups_finalizers nc = elim (Result-cases (cloud.list_security_groups nc)) [
    | inl ([], e) ↦ rw (reconcile_security_groups, e) refl
    | inl (n ∷ ns, e) ↦ rw (reconcile_security_groups, e) refl
    | inr (f, e) ↦ rw (reconcile_security_groups, e) refl
  ]

  keys_finalizers : (nc : NodeClass) → (reconcile_ssh_keys cloud nc).1.finalizers ≡ nc.finalizers
  unfolding reconcile_ssh_keys
  keys_finalizers nc = elim (Result-cases (cloud.list_ssh_keys nc)) [
    | inl ([], e) ↦ rw (reconcile_ssh_keys, e) refl
    | inl (n ∷ ns, e) ↦ rw (reconcile_ssh_keys, e) refl
    | inr (f, e) ↦ rw (reconcile_ssh_keys, e) refl
  ]

  status_finalizers : (nc : NodeClass) → (reconcile_status cloud nc).1.finalizers ≡ nc.finalizers
  unfolding reconcile_status reconcile_readiness
  status_finalizers nc =
      let subnets : NodeClass = (reconcile_subnets cloud nc).1 in
      let groups : NodeClass = (reconcile_security_groups cloud subnets).1 in
      keys_finalizers groups ∙ groups_finalizers subnets ∙ subnets_finalizers nc

  stored_run :
      (nc : NodeClass)
      → (patched (reconcile_stored cloud (accepting equal min) nc).1 nc).finalizers ≡ nc.finalizers
  unfolding reconcile_stored
  stored_run nc = elim (Bool-cases (equal nc (reconcile_status cloud nc).1)) [
    | inl same ↦ rw (reconcile_stored, same) refl
    | inr differs ↦ rw (reconcile_stored, differs) (status_finalizers nc)
  ]

  added :
      (fs : List String)
      → any_of (λ f. f == Labels.termination_finalizer) (fs ++ Labels.termination_finalizer ∷ [])
        ≡ true
  added [] = rw (eq_refl Labels.termination_finalizer) refl
  added (f ∷ fs) = elim (Bool-cases (f == Labels.termination_finalizer)) [
    | inl e ↦ rw e refl
    | inr e ↦ rw e (added fs)
  ]

  -- The status controller leaves the finalizer on the object.
  status_run-holds : (nc : NodeClass) → contains_finalizer (status_run cloud equal min nc) ≡ true
  unfolding reconcile
  status_run-holds nc = elim (Bool-cases (contains_finalizer nc)) [
    | inl held ↦
        rw (reconcile, held)
          (subst (λ fs. any_of (λ f. f == Labels.termination_finalizer) fs ≡ true)
            (sym (stored_run nc)) held)
    | inr free ↦
        rw (reconcile, free)
          (subst (λ fs. any_of (λ f. f == Labels.termination_finalizer) fs ≡ true)
            (sym (stored_run (add_finalizer nc))) (added nc.finalizers))
  ]

  -- A held object stays in the API server when it is being deleted.
  stand-held :
      (t : ℕ) (fs : List String) (nc : NodeClass)
      → any_of (λ f. f == Labels.termination_finalizer) fs ≡ true
      → stand (some t) fs nc ≡ some nc
  stand-held t [] nc h = cc
  stand-held t (f ∷ fs) nc h = refl

  -- While a NodeClaim uses a held object, the termination controller leaves it.
  by_deletion-waits :
      (user : String) (d : Option ℕ) (claims : List String) (nc : NodeClass)
      → contains_finalizer nc ≡ true
      → Memᴰ user claims
      → acted (by_deletion (λ n. ok claims) (λ n. ok tt) d nc).1 nc ≡ some nc
  unfolding by_deletion finalize
  by_deletion-waits user none claims nc held uses = refl
  by_deletion-waits user (some t) [] nc held uses = elim uses [ ]
  by_deletion-waits user (some t) (c ∷ cs) nc held uses = rw held refl

  Step-IsHeld :
      {user : String} {v u : World} → Step cloud equal min user v u → IsHeld user v → IsHeld user u
  unfolding reconcile_termination
  Step-IsHeld (status nc claims) (n, e, held, uses) =
      (status_run cloud equal min nc, refl, status_run-holds nc, uses)
  Step-IsHeld (terminate nc claims) (n, e, held, uses) =
      let same : n ≡ nc = some-injective n nc (sym e) in
      let kept : contains_finalizer nc ≡ true =
        subst (λ (m : NodeClass). contains_finalizer m ≡ true) same held in
      (nc, by_deletion-waits _ nc.deletion claims nc kept uses, kept, uses)
  Step-IsHeld (delete nc time claims) (n, e, held, uses) =
      let same : n ≡ nc = some-injective n nc (sym e) in
      let kept : contains_finalizer nc ≡ true =
        subst (λ (m : NodeClass). contains_finalizer m ≡ true) same held in
      let deleted : NodeClass = record nc { deletion = some time } in
      (deleted, stand-held time nc.finalizers deleted kept, kept, uses)
  Step-IsHeld (use_by o before after uses) (n, e, held, used) = (n, e, held, uses)

  Steps-IsHeld :
      {user : String} {w v : World} → IsHeld user w → Steps cloud equal min user w v → IsHeld user v
  Steps-IsHeld h here = h
  Steps-IsHeld h (next steps step) = Step-IsHeld step (Steps-IsHeld h steps)

  -- If every write is carried out and each controller reads the object as it stands, then after a
  -- run of the status controller on a node class, and any steps of the two node class controllers,
  -- of deletion requests and of NodeClaims that come and go while one NodeClaim that uses the
  -- class stays, the class is still in the API server and has the finalizer.
  pub Steps-keep :
      (user : String) (nc : NodeClass) (claims : List String) (w : World)
      → Memᴰ user claims
      → Steps cloud equal min user
          (record { object = some (status_run cloud equal min nc); claims = claims })
          w
      → (later : NodeClass) × (w.object ≡ some later) × (contains_finalizer later ≡ true)
  Steps-keep user nc claims w uses steps =
      let (later, stands, held, used) =
        Steps-IsHeld (status_run cloud equal min nc, refl, status_run-holds nc, uses) steps in
      (later, stands, held)
