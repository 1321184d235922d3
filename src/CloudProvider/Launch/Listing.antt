-- ===== src/CloudProvider/Launch/Listing.antt =====
-- What List of the cloud provider gives.
use karpenter_provider_tke.Prelude.{
  ℕ, ◌≡◌, refl, true, false, List, [], ◌∷◌, all_of, Result, ok, err, Result-cases, inl, inr,
}
use karpenter_provider_tke.Kube.{Machine, NodeClaim, History}
use karpenter_provider_tke.Scheduling.{Scheduling}
use karpenter_provider_tke.Zone.{ZoneProvider}
use karpenter_provider_tke.InstanceType.Blacklist.{Cache}
use karpenter_provider_tke.CloudProvider.Conversion.{Karpenter, Decoders, machine_to_nodeclaim}
use karpenter_provider_tke.CloudProvider.Identity.{
  is_readable, HasIdentity, machine_to_nodeclaim-is_readable, machine_to_nodeclaim-HasIdentity,
}
use karpenter_provider_tke.CloudProvider.Launch.{Backend, convert_all, list}

module _ (s : Scheduling) (k : Karpenter s) (d : Decoders) (zones : ZoneProvider) (cache : Cache)
    (b : Backend s.Requirements cache.C) where
  -- one NodeClaim for each machine, in the same order, each of its machine's identity
  abbrev pub AreOf : List Machine → List NodeClaim → Type 0
  AreOf [] [] = Unit
  AreOf [] (nc ∷ ncs) = ⊥
  AreOf (m ∷ ms) [] = ⊥
  AreOf (m ∷ ms) (nc ∷ ncs) = HasIdentity s k d zones m nc × AreOf ms ncs

  -- the NodeClaims of a list that can be read
  abbrev pub ListsAll : List Machine → Result (List NodeClaim) → Type 0
  ListsAll ms (ok ncs) = (all_of (is_readable s k d zones) ms ≡ true) × AreOf ms ncs
  ListsAll ms (err e) = all_of (is_readable s k d zones) ms ≡ false

  convert_all-ListsAll :
      (now : ℕ) (ms : List Machine) → ListsAll ms (convert_all s k d zones cache b now ms)
  unfolding convert_all
  convert_all-ListsAll now [] = (refl, tt)
  convert_all-ListsAll now (m ∷ ms) =
      let later = convert_all-ListsAll now ms in
      let readable = machine_to_nodeclaim-is_readable s k d zones now m in
      elim (Result-cases (machine_to_nodeclaim s k d zones now m)) [
        | inr (e, first) ↦ rw (convert_all, first) (rw (← readable, first) refl)
        | inl (nc, first) ↦ elim (Result-cases (convert_all s k d zones cache b now ms)) [
          | inr (e, rest) ↦
              rw (convert_all, first, rest) (rw (← readable, first) (rw rest at later))
          | inl (ncs, rest) ↦
              let (all, rows) = (rw rest at later) in
              rw (convert_all, first, rest)
                (
                  rw (← readable, first) all,
                  (machine_to_nodeclaim-HasIdentity s k d zones now m nc first, rows),
                )
        ]
      ]

  -- If the machine provider lists its machines, List gives one NodeClaim for each, in their order,
  -- with the machine's provider ID, creation time, name and management; it fails or panics exactly
  -- if some machine lacks a provider spec that can be decoded and is not nil, whole numbers of
  -- CPUs and memory among its labels, a price, or a capacity of cpu or memory among its
  -- annotations, or if one of the annotations that are read for its capacity and overhead is no
  -- quantity.
  pub list-ListsAll :
      (now : ℕ) (h : History) (ms : List Machine)
      → b.machines.list h ≡ ok ms
      → ListsAll ms (list s k d zones cache b now h)
  unfolding list
  list-ListsAll now h ms listed = rw (list, listed) (convert_all-ListsAll now ms)
