-- ===== src/GarbageCollection.antt =====
-- pkg/controllers/nodeclaim/garbagecollection/controller.go: cloud machines that no NodeClaim owns are
-- deleted. As in the failure controller, `now` serves a whole reconciliation, and the deletions run
-- one after another.
pub mod Safety
use karpenter_provider_tke.Prelude.{
  ℕ, ◌+◌, ◌-◌, ◌*◌, ◌^◌, String, ◌==◌, Bool, true, false, not, ◌&&◌, Option, none, some, List, [],
  ◌∷◌, ◌++◌, if◌then◌else◌, ltb, leb, keep_if, any_of, find_first, text_at, Error, Result, ok, err,
  ignore_not_found, ignore_nodeclaim_not_found,
}
use karpenter_provider_tke.Labels
use karpenter_provider_tke.Kube.{Machine, NodeClaim, Write, delete_machine, History, Kube}

-- What this controller calls of the cloud provider.
pub record CloudProvider : Type 0 where
  pub list : History → Result (List NodeClaim)
  pub delete : NodeClaim → History → Result (Unit {0}) × History

abbrev pub owned_machine : NodeClaim → String
owned_machine nc = text_at Labels.annotation_owned_machine nc.annotations

-- managedRetrieved
unfoldable pub is_managed : NodeClaim → Bool
is_managed nc =
    not (text_at Labels.annotation_managed_by nc.annotations == "")
    && elim (nc.deletion) [ none ↦ true | some t ↦ false ]

-- the test on resolvedOwnedMachines, the names that the NodeClaims of the cluster own
unfoldable pub is_resolved : List NodeClaim → NodeClaim → Bool
is_resolved claims nc =
    any_of (λ (n : NodeClaim). not (owned_machine n == "") && owned_machine n == owned_machine nc)
      claims

-- the NodeClaims that the workers collect
unfoldable pub garbage : ℕ → List NodeClaim → List NodeClaim → List NodeClaim
garbage now claims retrieved =
    keep_if
      (λ (nc : NodeClaim).
        is_managed nc && not (is_resolved claims nc) && ltb (30 * 10 ^ 9) (now - nc.created))
      retrieved

module _ (kube : Kube) (cp : CloudProvider) where
  -- the end of garbageCollect: the machine that is found by its name
  unfoldable pub clean_up : Option Machine → History → Result (Unit {0}) × History
  clean_up none h = (ok tt, h)
  clean_up (some m) h =
      (ignore_not_found (kube.write h (delete_machine m.name)), delete_machine m.name ∷ h)

  -- garbageCollect
  unfoldable pub garbage_collect : NodeClaim → List Machine → History → Result (Unit {0}) × History
  garbage_collect nc machines h =
      let (answer, after) = cp.delete nc h in
      elim answer [
        | err e ↦ (ignore_nodeclaim_not_found (err e), after)
        | ok u ↦ clean_up (find_first (λ (m : Machine). m.name == owned_machine nc) machines) after
      ]

  -- the errors that are not nil, of the workers in turn
  unfoldable pub collect_all : List NodeClaim → List Machine → History → List Error × History
  collect_all [] machines h = ([], h)
  collect_all (nc ∷ ncs) machines h =
      let (answer, after) = garbage_collect nc machines h in
      let (errors, last) = collect_all ncs machines after in
      (elim answer [ ok u ↦ errors | err e ↦ e ∷ errors ], last)

  unfoldable pub finish : List Error → ℕ → Result ℕ × ℕ
  finish [] n = (ok (if leb (n + 1) 20 then 10 else 60), n + 1)
  finish (e ∷ es) n = (err e, n)

  -- Reconcile, from the three lists on
  unfoldable pub collect :
      ℕ → List NodeClaim → List NodeClaim → List Machine → ℕ → History → Result ℕ × ℕ × History
  collect now retrieved claims machines n h =
      let (errors, after) = collect_all (garbage now claims retrieved) machines h in
      let (answer, count) = finish errors n in (answer, count, after)

  -- Reconcile: the clock, the count of successes and the history; the answer has the seconds after
  -- which it runs again.
  unfoldable pub reconcile : ℕ → ℕ → History → Result ℕ × ℕ × History
  reconcile now n h = elim (cp.list h) [
    | err e ↦ (err e, n, h)
    | ok retrieved ↦ elim (kube.list_nodeclaims h) [
      | err e ↦ (err e, n, h)
      | ok claims ↦ elim (kube.list_machines h) [
        | err e ↦ (err e, n, h)
        | ok machines ↦ collect now retrieved claims machines n h
      ]
    ]
  ]
