-- ===== src/NodeClass/Status.antt =====
-- pkg/controllers/nodeclass/status/controller.go: Reconcile, with its two patches around the four
-- reconcilers.
pub mod Sorting
pub mod Stable
pub mod Reports
use karpenter_provider_tke.Prelude.{
  ℕ, String, Bool, List, [], ◌∷◌, ◌++◌, map, if◌then◌else◌, is_empty, Error, Result, ok, err,
  not_found,
}
use karpenter_provider_tke.Labels
use karpenter_provider_tke.NodeClass.{NodeClass, Cloud, reconcile_status, contains_finalizer}

-- What the controller asks the API server to change, with the object as the controller has it.
pub data Patch : Type 0 where
  patch_object patch_status : NodeClass → Patch

-- What the controller calls: client.Patch with the object before and after, which reads the server's
-- object back; Status().Patch; equality.Semantic.DeepEqual; result.Min, on the seconds, 0 for no wish.
pub record Server : Type 0 where
  pub patch : NodeClass → NodeClass → Result NodeClass
  pub status_patch : NodeClass → NodeClass → Result (Unit {0})
  pub equal : NodeClass → NodeClass → Bool
  pub min : List ℕ → ℕ

-- controllerutil.AddFinalizer, where the finalizer is missing
abbrev pub add_finalizer : NodeClass → NodeClass
add_finalizer nc = record nc { finalizers = nc.finalizers ++ Labels.termination_finalizer ∷ [] }

-- multierr.Append over the errors of the reconcilers
unfoldable pub errors_of : List (Result ℕ) → List Error
errors_of [] = []
errors_of (ok n ∷ rs) = errors_of rs
errors_of (err e ∷ rs) = e ∷ errors_of rs

-- the seconds that a reconciler asks for, none with an error
abbrev pub seconds_of : Result ℕ → ℕ
seconds_of (ok n) = n
seconds_of (err e) = 0

-- client.IgnoreNotFound, and what multierr.Append adds of it
unfoldable pub late_errors : Result (Unit {0}) → List Error
late_errors (ok u) = []
late_errors (err not_found) = []
late_errors (err e) = e ∷ []

-- The seconds, the errors that are not nil, and the patches in their order.
abbrev pub Run : Type 0
Run = (ℕ × List Error) × List Patch

module _ (cloud : Cloud) (server : Server) where
  -- the end of Reconcile
  unfoldable pub answer_of : List (Result ℕ) → List Error → ℕ × List Error
  answer_of results errs =
      if is_empty errs then (server.min (map seconds_of results), []) else (0, errs)

  -- Reconcile, behind the patch of the finalizer
  unfoldable pub reconcile_stored : NodeClass → Run
  reconcile_stored stored =
      let (results, after) = reconcile_status cloud stored in
      if server.equal stored after then (answer_of results (errors_of results), []) else (
        answer_of results (errors_of results ++ late_errors (server.status_patch stored after)),
        patch_status after ∷ [],
      )

  -- Reconcile
  unfoldable pub reconcile : NodeClass → Run
  reconcile nc =
      if contains_finalizer nc
      then reconcile_stored nc
      else (elim (server.patch nc (add_finalizer nc)) [
        | err e ↦ ((0, e ∷ []), patch_object (add_finalizer nc) ∷ [])
        | ok stored ↦
            let (answer, patches) = reconcile_stored stored in
            (answer, patch_object (add_finalizer nc) ∷ patches)
      ])
