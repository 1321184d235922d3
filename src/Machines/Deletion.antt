-- ===== src/Machines/Deletion.antt =====
-- Which machine Delete removes.
use karpenter_provider_tke.Prelude.{
  ◌≡◌, refl, String, ◌==◌, Bool, not, ◌&&◌, is_empty, find_first_ext, Option, none, some, List, [],
  ◌∷◌, inl, inr, if◌then◌else◌, find_first, Result, ok, err, nodeclaim_not_found, Bool-cases,
  Option-cases,
}
use karpenter_provider_tke.Kube.{Machine, NodeClaim, delete_machine, History, Kube}
use karpenter_provider_tke.Machines.{has_provider_id, is_owned_by, get, delete_by_owner, delete}

-- the machine that a NodeClaim names: by its provider ID, or without one as an owner
unfoldable pub names : NodeClaim → Machine → Bool
names nc m =
    if nc.provider_id == "" then is_owned_by nc.name m else has_provider_id nc.provider_id m

module _ (kube : Kube) where
  -- What Delete answers and writes, by the first machine that the NodeClaim names.
  abbrev pub deletion :
      NodeClaim → List Machine → Option Machine → History → Result (Unit {0}) × History
  deletion nc ms (some m) h = (kube.write h (delete_machine m.name), delete_machine m.name ∷ h)
  deletion nc ms none h =
      (if nc.provider_id == "" && not (is_empty ms) then ok tt else err nodeclaim_not_found, h)

  by_owner :
      (name : String) (ms : List Machine) (h : History)
      → kube.list_machines h ≡ ok ms
      → delete_by_owner kube name h ≡ (elim (find_first (is_owned_by name) ms) [
        | some m ↦ (kube.write h (delete_machine m.name), delete_machine m.name ∷ h)
        | none ↦ (if not (is_empty ms) then ok tt else err nodeclaim_not_found, h)
      ])
  unfolding delete_by_owner
  by_owner name [] h listed = rw (delete_by_owner, listed) refl
  by_owner name (m ∷ ms) h listed = elim (Option-cases (find_first (is_owned_by name) (m ∷ ms))) [
    | inl missing ↦ rw (delete_by_owner, listed, missing) refl
    | inr (found, e) ↦ rw (delete_by_owner, listed, e) refl
  ]

  by_provider_id :
      (id : String) (ms : List Machine) (h : History)
      → kube.list_machines h ≡ ok ms
      → get kube id h ≡ (elim (find_first (has_provider_id id) ms) [
        | some m ↦ ok m
        | none ↦ err nodeclaim_not_found
      ])
  unfolding get
  by_provider_id id ms h listed = rw (get, listed) refl

  -- If the machines can be listed, Delete deletes the first machine that the NodeClaim names by
  -- its provider ID, or without one as an owner, with the server's answer; if there is none it
  -- writes nothing and reports NodeClaim not found, except that it reports success if the
  -- NodeClaim has no provider ID and the list is not empty.
  pub delete-deletion :
      (nc : NodeClaim) (ms : List Machine) (h : History)
      → kube.list_machines h ≡ ok ms
      → delete kube nc h ≡ deletion nc ms (find_first (names nc) ms) h
  unfolding delete names
  delete-deletion nc ms h listed = elim (Bool-cases (nc.provider_id == "")) [
    | inl blank ↦
        rw
          (
            delete,
            blank,
            find_first_ext (names nc) (is_owned_by nc.name) ms (λ m. rw (names, blank) refl),
          )
          (elim (Option-cases (find_first (is_owned_by nc.name) ms)) [
            | inl missing ↦ rw (by_owner nc.name ms h listed, missing, deletion, blank) refl
            | inr (m, e) ↦ rw (by_owner nc.name ms h listed, e) refl
          ])
    | inr given ↦
        rw
          (
            delete,
            given,
            find_first_ext (names nc) (has_provider_id nc.provider_id) ms
                (λ m. rw (names, given) refl),
            by_provider_id nc.provider_id ms h listed,
          )
          (elim (Option-cases (find_first (has_provider_id nc.provider_id) ms)) [
            | inl missing ↦ rw (missing, deletion, given) refl
            | inr (m, e) ↦ rw e refl
          ])
  ]
