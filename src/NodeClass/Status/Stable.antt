-- ===== src/NodeClass/Status/Stable.antt =====
-- The status does not depend on the order in which the cloud lists, and a second run writes nothing.
use mathlib.Core.List.{Perm}
use mathlib.Core.List.Perm
use karpenter_provider_tke.Prelude.{
  ℕ, ◌≡◌, refl, sym, ap, ap₂, subst, ◌∙◌, String, true, List, [], ◌∷◌, map, Result, ok,
}
use karpenter_provider_tke.NodeClass.{
  VpcSubnet, NodeClass, Cloud, reconcile_subnets, reconcile_security_groups, reconcile_ssh_keys,
  reconcile_readiness, reconcile_status, condition_of, contains_finalizer,
}
use karpenter_provider_tke.NodeClass.Status.Sorting.{
  IsDocumented, HaveIds, subnets_status, ids_status, subnets_status-perm, ids_status-perm,
}
use karpenter_provider_tke.NodeClass.Status.{
  Server, errors_of, seconds_of, answer_of, reconcile_stored, reconcile,
}

-- what the cloud lists for a node class
pub record Answers : Type 0 where
  pub subnets : List VpcSubnet
  pub groups : List String
  pub keys : List String

abbrev pub answering : Cloud → Answers → Cloud
answering cloud a = record cloud {
  list_subnets = λ nc. ok a.subnets;
  list_security_groups = λ nc. ok a.groups;
  list_ssh_keys = λ nc. ok a.keys;
}

-- the seconds that a reconciler asks for
abbrev wait_for {ℓ} : {A : Type ℓ} → List A → Result ℕ
wait_for [] = ok 0
wait_for (x ∷ xs) = ok 60

wait_for-perm : {A : Type 0} (xs ys : List A) → Perm xs ys → wait_for xs ≡ wait_for ys
wait_for-perm [] [] p = refl
wait_for-perm [] (y ∷ ys) p = cc (Perm.nil-eq p)
wait_for-perm (x ∷ xs) [] p = cc (Perm.eq-nil p)
wait_for-perm (x ∷ xs) (y ∷ ys) p = refl

-- What the cloud's answers make of a node class, and of the results.
abbrev status_by : Cloud → Answers → NodeClass → NodeClass
status_by cloud a nc = record nc {
  subnets = subnets_status cloud a.subnets;
  security_groups = ids_status cloud a.groups;
  ssh_keys = ids_status cloud a.keys;
  condition = condition_of cloud (subnets_status cloud a.subnets) (ids_status cloud a.groups);
}

abbrev results_by : Answers → List (Result ℕ)
results_by a = wait_for a.subnets ∷ wait_for a.groups ∷ wait_for a.keys ∷ ok 0 ∷ []

subnets-answered :
    (cloud : Cloud) (ns : List VpcSubnet) (nc : NodeClass)
    → cloud.list_subnets nc ≡ ok ns
    → reconcile_subnets cloud nc ≡ (wait_for ns, record nc { subnets = subnets_status cloud ns })
unfolding reconcile_subnets
subnets-answered cloud [] nc e = rw (e, reconcile_subnets) refl
subnets-answered cloud (n ∷ ns) nc e = rw (e, reconcile_subnets) refl

groups-answered :
    (cloud : Cloud) (gs : List String) (nc : NodeClass)
    → cloud.list_security_groups nc ≡ ok gs
    → reconcile_security_groups cloud nc
      ≡ (wait_for gs, record nc { security_groups = ids_status cloud gs })
unfolding reconcile_security_groups
groups-answered cloud [] nc e = rw (e, reconcile_security_groups) refl
groups-answered cloud (g ∷ gs) nc e = rw (e, reconcile_security_groups) refl

keys-answered :
    (cloud : Cloud) (keys : List String) (nc : NodeClass)
    → cloud.list_ssh_keys nc ≡ ok keys
    → reconcile_ssh_keys cloud nc ≡ (wait_for keys, record nc { ssh_keys = ids_status cloud keys })
unfolding reconcile_ssh_keys
keys-answered cloud [] nc e = rw (e, reconcile_ssh_keys) refl
keys-answered cloud (k ∷ keys) nc e = rw (e, reconcile_ssh_keys) refl

status-answered :
    (cloud : Cloud) (a : Answers) (nc : NodeClass)
    → reconcile_status (answering cloud a) nc ≡ (results_by a, status_by cloud a nc)
unfolding reconcile_status reconcile_readiness condition_of
status-answered cloud a nc =
    let c : Cloud = answering cloud a in
    let x : NodeClass = record nc { subnets = subnets_status cloud a.subnets } in
    let y : NodeClass = record x { security_groups = ids_status cloud a.groups } in
    rw
      (
        subnets-answered c a.subnets nc refl,
        groups-answered c a.groups x refl,
        keys-answered c a.keys y refl,
      )
      refl

wait_for-errors :
    {A : Type 0} (xs : List A) (rs : List (Result ℕ)) → errors_of (wait_for xs ∷ rs) ≡ errors_of rs
unfolding errors_of
wait_for-errors [] rs = refl
wait_for-errors (x ∷ xs) rs = refl

results_by-errors : (a : Answers) → errors_of (results_by a) ≡ []
unfolding errors_of
results_by-errors a =
    wait_for-errors a.subnets _ ∙ wait_for-errors a.groups _ ∙ wait_for-errors a.keys _

-- A run on a status that its own reconcilers leave as it is.
reconcile-unchanged :
    (cloud : Cloud) (server : Server) (nc : NodeClass) (rs : List (Result ℕ))
    → reconcile_status cloud nc ≡ (rs, nc)
    → errors_of rs ≡ []
    → server.equal nc nc ≡ true
    → contains_finalizer nc ≡ true
    → reconcile cloud server nc ≡ ((server.min (map seconds_of rs), []), [])
unfolding reconcile reconcile_stored answer_of
reconcile-unchanged cloud server nc rs e none_failed same held =
    rw (held, e, same, none_failed) refl

module _ (cloud : Cloud) (documented : IsDocumented cloud) (a b : Answers)
    (distinct : HaveIds a.subnets) (subnets : Perm a.subnets b.subnets)
    (groups : Perm a.groups b.groups) (keys : Perm a.keys b.keys) where
  status_by-perm : (nc : NodeClass) → status_by cloud b nc ≡ status_by cloud a nc
  status_by-perm nc =
      let s : subnets_status cloud b.subnets ≡ subnets_status cloud a.subnets =
        sym (subnets_status-perm cloud documented a.subnets b.subnets distinct subnets) in
      let g : ids_status cloud b.groups ≡ ids_status cloud a.groups =
        sym (ids_status-perm cloud documented a.groups b.groups groups) in
      let k : ids_status cloud b.keys ≡ ids_status cloud a.keys =
        sym (ids_status-perm cloud documented a.keys b.keys keys) in
      λ i. record nc {
        subnets = s i;
        security_groups = g i;
        ssh_keys = k i;
        condition = condition_of cloud (s i) (g i);
      }

  results_by-perm : results_by b ≡ results_by a
  results_by-perm =
      let s = wait_for-perm a.subnets b.subnets subnets in
      let g = wait_for-perm a.groups b.groups groups in
      let k = wait_for-perm a.keys b.keys keys in λ i. sym s i ∷ sym g i ∷ sym k i ∷ ok 0 ∷ []

  reconcile_status-perm :
      (nc : NodeClass)
      → reconcile_status (answering cloud b) nc ≡ reconcile_status (answering cloud a) nc
  reconcile_status-perm nc =
      status-answered cloud b nc
      ∙ ap₂ (λ r n. (r, n)) results_by-perm (status_by-perm nc)
      ∙ sym (status-answered cloud a nc)

  status_again :
      (nc : NodeClass)
      → reconcile_status (answering cloud b) (reconcile_status (answering cloud a) nc).1
        ≡ reconcile_status (answering cloud a) nc
  status_again nc =
      ap (λ (r : List (Result ℕ) × NodeClass). reconcile_status (answering cloud b) r.1)
        (status-answered cloud a nc)
      ∙ status-answered cloud b (status_by cloud a nc)
      ∙ sym (status-answered cloud b nc)
      ∙ reconcile_status-perm nc

  -- If the order of texts is total, both sorts are as documented, no two subnets of the cloud have
  -- the same ID, and a node class equals itself, then the four reconcilers make the same status
  -- and results of two answers of the cloud that list the same things in different orders, and a
  -- run on a node class with the finalizer and the status of the one, when the cloud gives the
  -- other, writes nothing and reports no error.
  pub reconcile-quiet :
      (server : Server) (nc : NodeClass)
      → ((n : NodeClass) → server.equal n n ≡ true)
      → contains_finalizer nc ≡ true
      → (reconcile_status (answering cloud b) nc ≡ reconcile_status (answering cloud a) nc)
        × (reconcile (answering cloud b) server (reconcile_status (answering cloud a) nc).1
            ≡ ((server.min (map seconds_of (reconcile_status (answering cloud a) nc).0), []), []))
  reconcile-quiet server nc same held =
      let fresh : List (Result ℕ) × NodeClass = reconcile_status (answering cloud a) nc in
      let e = sym (status-answered cloud a nc) in
      (
        reconcile_status-perm nc,
        reconcile-unchanged (answering cloud b) server fresh.1 fresh.0 (status_again nc)
            (subst (λ (r : List (Result ℕ) × NodeClass). errors_of r.0 ≡ []) e
              (results_by-errors a))
            (same fresh.1)
            (subst (λ (r : List (Result ℕ) × NodeClass). contains_finalizer r.1 ≡ true) e held),
      )
