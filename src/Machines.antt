-- ===== src/Machines.antt =====
-- pkg/providers/machine/machine.go: how the machine provider finds, lists and deletes machines.
pub mod Deletion
pub mod Selection
pub mod Annotations
pub mod Creation
use karpenter_provider_tke.Prelude.{
  ℕ, String, ◌==◌, Bool, true, false, ◌&&◌, Option, none, some, List, [], ◌∷◌, ◌++◌, if◌then◌else◌,
  find_first, any_of, Result, ok, err, nodeclaim_not_found,
}
use karpenter_provider_tke.Kube.{
  OwnerReference, Machine, NodeClaim, delete_machine, History, Kube, send, nodeclaim_kind,
}

-- the test of Get: the provider ID is set and is the one asked for
unfoldable pub has_provider_id : String → Machine → Bool
has_provider_id id m = elim (m.provider_id) [ none ↦ false | some own ↦ own == id ]

unfoldable pub is_owned_by : String → Machine → Bool
is_owned_by name m =
    any_of (λ (o : OwnerReference). o.kind == nodeclaim_kind && o.name == name) m.owners

-- one machine of List: it is taken once for each NodeClaim among its owners.
abbrev pub copies : Machine → List OwnerReference → List Machine
copies m [] = []
copies m (o ∷ owners) =
    let rest = copies m owners in if o.kind == nodeclaim_kind then m ∷ rest else rest

unfoldable pub owned_machines : List Machine → List Machine
owned_machines [] = []
owned_machines (m ∷ ms) = copies m m.owners ++ owned_machines ms

module _ (kube : Kube) where
  -- Get
  unfoldable pub get : String → History → Result Machine
  get id h = elim (kube.list_machines h) [
    | err e ↦ err e
    | ok ms ↦ elim (find_first (has_provider_id id) ms) [
      | some m ↦ ok m
      | none ↦ err nodeclaim_not_found
    ]
  ]

  -- List
  unfoldable pub list : History → Result (List Machine)
  list h = elim (kube.list_machines h) [ err e ↦ err e | ok ms ↦ ok (owned_machines ms) ]

  -- the part of Delete that looks for the NodeClaim among the owners
  unfoldable pub delete_by_owner : String → History → Result (Unit {0}) × History
  delete_by_owner name h = elim (kube.list_machines h) [
    | err e ↦ (err e, h)
    | ok [] ↦ (err nodeclaim_not_found, h)
    | ok (first ∷ others) ↦ elim (find_first (is_owned_by name) (first ∷ others)) [
      | some m ↦ send kube (delete_machine m.name) h
      | none ↦ (ok tt, h)
    ]
  ]

  -- Delete
  unfoldable pub delete : NodeClaim → History → Result (Unit {0}) × History
  delete nc h =
      if nc.provider_id == "" then delete_by_owner nc.name h else (elim (get nc.provider_id h) [
        | err e ↦ (err e, h)
        | ok m ↦ send kube (delete_machine m.name) h
      ])
