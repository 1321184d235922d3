-- ===== src/NodeClass/Finalizer.antt =====
-- What the finalizer of a node class guarantees.
use mathlib.Core.List.{Memᴰ}
use karpenter_provider_tke.Prelude.{
  ◌≡◌, ◌≢◌, ℕ, ap, String, true, Option, some, none, List, [], ◌∷◌, Result, ok, Bool-cases,
  Result-cases, inl, inr,
}
use karpenter_provider_tke.NodeClass.{
  NodeClass, contains_finalizer, remove_finalizer, Action, publish_waiting, update, finalize,
  by_deletion, reconcile_termination,
}

updated : NodeClass → Action → NodeClass
updated nc (update after) = after
updated nc (publish_waiting names) = nc

update-injective : (a b : NodeClass) → update a ≡ update b → a ≡ b
unfolding updated
update-injective a b e = ap (updated a) e

module _ (claims : NodeClass → Result (List String)) (send : NodeClass → Result (Unit {0})) where
  finalize-update :
      (nc after : NodeClass)
      → Memᴰ (update after) (finalize claims send nc).1
      → (contains_finalizer nc ≡ true) × (claims nc ≡ ok []) × (after ≡ remove_finalizer nc)
  unfolding finalize
  finalize-update nc after h = elim (Bool-cases (contains_finalizer nc)) [
    | inr free ↦ elim (rw (free, finalize) at h) [ ]
    | inl held ↦ elim (Result-cases (claims nc)) [
      | inr (e, failed) ↦ elim (rw (held, failed, finalize) at h) [ ]
      | inl ([], listed) ↦ elim (rw (held, listed, finalize) at h) [
        | Memᴰ.head e ↦ (held, listed, update-injective after _ e)
        | Memᴰ.tail later ↦ elim later [ ]
      ]
      | inl (c ∷ cs, listed) ↦ elim (rw (held, listed, finalize) at h) [
        | Memᴰ.head e ↦ cc
        | Memᴰ.tail later ↦ elim later [ ]
      ]
    ]
  ]

  by_deletion-update :
      (d : Option ℕ) (nc after : NodeClass)
      → Memᴰ (update after) (by_deletion claims send d nc).1
      → (d ≢ none)
        × (contains_finalizer nc ≡ true)
        × (claims nc ≡ ok [])
        × (after ≡ remove_finalizer nc)
  unfolding by_deletion
  by_deletion-update none nc after h = elim h [ ]
  by_deletion-update (some t) nc after h =
      let (a, b, c) = finalize-update nc after h in (λ e. cc, a, b, c)

  -- The termination controller updates a node class only if it is being deleted, has the
  -- finalizer, and no NodeClaim uses it; what it writes is the node class without the finalizer.
  pub reconcile_termination-update :
      (nc after : NodeClass)
      → Memᴰ (update after) (reconcile_termination claims send nc).1
      → (nc.deletion ≢ none)
        × (contains_finalizer nc ≡ true)
        × (claims nc ≡ ok [])
        × (after ≡ remove_finalizer nc)
  unfolding reconcile_termination
  reconcile_termination-update nc after h = by_deletion-update nc.deletion nc after h
