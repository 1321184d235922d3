-- ===== src/NodeClass/Status/Reports.antt =====
-- What a run of the status controller without an error has done.
use karpenter_provider_tke.Prelude.{
  ℕ, ◌≡◌, refl, sym, ◌∙◌, true, false, List, [], ◌∷◌, ◌++◌, ◌⊎◌, inl, inr, Bool-cases, Result-cases,
  Error, Result, ok, err, not_found, is_ok,
}
use karpenter_provider_tke.NodeClass.{
  NodeClass, Cloud, reconcile_subnets, reconcile_security_groups, reconcile_ssh_keys,
  reconcile_status, contains_finalizer,
}
use karpenter_provider_tke.NodeClass.Status.{
  Server, add_finalizer, errors_of, late_errors, answer_of, reconcile_stored, reconcile,
}

append-eq-nil : (xs ys : List Error) → xs ++ ys ≡ [] → (xs ≡ []) × (ys ≡ [])
append-eq-nil [] ys e = (refl, e)
append-eq-nil (x ∷ xs) ys e = cc

errors_of-first :
    (r : Result ℕ) (rs : List (Result ℕ))
    → errors_of (r ∷ rs) ≡ []
    → (is_ok r ≡ true) × (errors_of rs ≡ [])
unfolding errors_of
errors_of-first (ok n) rs e = (refl, e)
errors_of-first (err f) rs e = cc

late_errors-nil : (r : Result (Unit {0})) → late_errors r ≡ [] → (r ≡ ok tt) ⊎ (r ≡ err not_found)
unfolding late_errors
late_errors-nil (ok tt) e = inl refl
late_errors-nil (err not_found) e = inr refl
late_errors-nil (err (Error.plain text)) e = cc
late_errors-nil (err Error.conflict) e = cc
late_errors-nil (err Error.nodeclaim_not_found) e = cc
late_errors-nil (err Error.insufficient_capacity) e = cc

-- The object that the reconcilers start from: the one asked for, if it has the finalizer, and
-- otherwise the server's answer to the patch that adds it.
abbrev pub IsStored : Server → NodeClass → NodeClass → Type 0
IsStored server nc stored =
    ((contains_finalizer nc ≡ true) × (stored ≡ nc))
    ⊎ ((contains_finalizer nc ≡ false) × (server.patch nc (add_finalizer nc) ≡ ok stored))

module _ (cloud : Cloud) (server : Server) where
  -- Each of the three lists could be read where its reconciler asked for it.
  abbrev pub AreListed : NodeClass → Type 0
  AreListed nc =
      let subnets = (reconcile_subnets cloud nc).1 in
      let groups = (reconcile_security_groups cloud subnets).1 in
      (is_ok (cloud.list_subnets nc) ≡ true)
      × (is_ok (cloud.list_security_groups subnets) ≡ true)
      × (is_ok (cloud.list_ssh_keys groups) ≡ true)

  -- The server has the status that the reconcilers made: it was there, it was written, or the object
  -- is gone.
  abbrev pub IsWritten : NodeClass → Type 0
  IsWritten nc =
      let after = (reconcile_status cloud nc).1 in
      (server.equal nc after ≡ true)
      ⊎ (server.status_patch nc after ≡ ok tt)
      ⊎ (server.status_patch nc after ≡ err not_found)

  subnets_listed :
      (nc : NodeClass)
      → is_ok (reconcile_subnets cloud nc).0 ≡ true
      → is_ok (cloud.list_subnets nc) ≡ true
  unfolding reconcile_subnets
  subnets_listed nc h = elim (Result-cases (cloud.list_subnets nc)) [
    | inl (ns, e) ↦ rw e refl
    | inr (f, e) ↦ cc (rw (reconcile_subnets, e) at h)
  ]

  groups_listed :
      (nc : NodeClass)
      → is_ok (reconcile_security_groups cloud nc).0 ≡ true
      → is_ok (cloud.list_security_groups nc) ≡ true
  unfolding reconcile_security_groups
  groups_listed nc h = elim (Result-cases (cloud.list_security_groups nc)) [
    | inl (gs, e) ↦ rw e refl
    | inr (f, e) ↦ cc (rw (reconcile_security_groups, e) at h)
  ]

  keys_listed :
      (nc : NodeClass)
      → is_ok (reconcile_ssh_keys cloud nc).0 ≡ true
      → is_ok (cloud.list_ssh_keys nc) ≡ true
  unfolding reconcile_ssh_keys
  keys_listed nc h = elim (Result-cases (cloud.list_ssh_keys nc)) [
    | inl (ks, e) ↦ rw e refl
    | inr (f, e) ↦ cc (rw (reconcile_ssh_keys, e) at h)
  ]

  reconcile_status-AreListed :
      (nc : NodeClass) → errors_of (reconcile_status cloud nc).0 ≡ [] → AreListed nc
  unfolding reconcile_status
  reconcile_status-AreListed nc e =
      let subnets : NodeClass = (reconcile_subnets cloud nc).1 in
      let groups : NodeClass = (reconcile_security_groups cloud subnets).1 in
      let (a, rest) = errors_of-first (reconcile_subnets cloud nc).0 _ e in
      let (b, later) = errors_of-first (reconcile_security_groups cloud subnets).0 _ rest in
      let (c, last) = errors_of-first (reconcile_ssh_keys cloud groups).0 _ later in
      (subnets_listed nc a, groups_listed subnets b, keys_listed groups c)

  answer_of-errors :
      (rs : List (Result ℕ)) (errs : List Error) → (answer_of cloud server rs errs).1 ≡ errs
  unfolding answer_of
  answer_of-errors rs [] = refl
  answer_of-errors rs (e ∷ errs) = refl

  reconcile_stored-IsWritten :
      (nc : NodeClass) → (reconcile_stored cloud server nc).0.1 ≡ [] → AreListed nc × IsWritten nc
  unfolding reconcile_stored
  reconcile_stored-IsWritten nc e =
      elim (Bool-cases (server.equal nc (reconcile_status cloud nc).1)) [
        | inl same ↦ (
          reconcile_status-AreListed nc
              (sym (answer_of-errors _ _) ∙ (rw (reconcile_stored, same) at e)),
          inl same,
        )
        | inr differs ↦
            let (none_failed, late) =
              append-eq-nil _ _
                (sym (answer_of-errors _ _) ∙ (rw (reconcile_stored, differs) at e)) in
            (reconcile_status-AreListed nc none_failed, inr (late_errors-nil _ late))
      ]

  -- If a run of the status controller reports no error, then the node class had the finalizer or
  -- the server answered the patch that adds it, and on that object each of the three lists could
  -- be read where its reconciler asked for it, and the status that the reconcilers made was there
  -- before, or the server took its patch, or the server did not find the object.
  pub reconcile-IsWritten :
      (nc : NodeClass)
      → (reconcile cloud server nc).0.1 ≡ []
      → (stored : NodeClass) × IsStored server nc stored × AreListed stored × IsWritten stored
  unfolding reconcile
  reconcile-IsWritten nc e = elim (Bool-cases (contains_finalizer nc)) [
    | inl held ↦
        let (listed, written) = reconcile_stored-IsWritten nc (rw (reconcile, held) at e) in
        (nc, inl (held, refl), listed, written)
    | inr free ↦ elim (Result-cases (server.patch nc (add_finalizer nc))) [
      | inl (stored, patched) ↦
          let (listed, written) =
            reconcile_stored-IsWritten stored (rw (reconcile, free, patched) at e) in
          (stored, inr (free, patched), listed, written)
      | inr (f, failed) ↦ cc (rw (reconcile, free, failed) at e)
    ]
  ]
