-- ===== src/CloudProvider/Collection.antt =====
-- The garbage collector over the program's own cloud provider and machine provider: which machines it
-- deletes.
use mathlib.Core.List.{Memᴰ}
use karpenter_provider_tke.Prelude.{
  ℕ, ◌-◌, ◌*◌, ◌^◌, ◌<◌, ◌≡◌, refl, sym, ap, subst, ◌∙◌, String, ◌==◌, Bool, true, false, not, ◌&&◌,
  some, List, [], ◌∷◌, inl, inr, any_of, find_first, find_first-Mem, Mem-append, Result, ok, err,
  Option-cases, Result-cases, Bool-cases, text_at,
}
use karpenter_provider_tke.Labels
use karpenter_provider_tke.Kube.{
  OwnerReference, Machine, NodeClaim, Write, delete_machine, History, Kube, Adds, Adds-refl,
  Adds-mono, text_of, nodeclaim_kind,
}
use karpenter_provider_tke.Scheduling.{Scheduling, InstanceType}
use karpenter_provider_tke.Zone.{ZoneProvider}
use karpenter_provider_tke.NodeClass.{NodeClass}
use karpenter_provider_tke.InstanceType.Blacklist.{Cache}
use karpenter_provider_tke.Machines
use karpenter_provider_tke.Machines.{has_provider_id, is_owned_by, owned_machines, copies}
use karpenter_provider_tke.Machines.Deletion.{names, delete-deletion}
use karpenter_provider_tke.GarbageCollection
use karpenter_provider_tke.GarbageCollection.{owned_machine, is_managed, is_resolved}
use karpenter_provider_tke.GarbageCollection.Safety.{Collects, reconcile-Collects}
use karpenter_provider_tke.CloudProvider.Conversion.{Karpenter, Decoders, phase_deleting}
use karpenter_provider_tke.CloudProvider.Identity.{HasIdentity}
use karpenter_provider_tke.CloudProvider.Launch.{
  NodeClaimSpec, Creation, MachineProvider, Backend, list, delete,
}
use karpenter_provider_tke.CloudProvider.Launch.Listing.{AreOf, list-ListsAll}

-- the writes of the machine provider's Delete for a NodeClaim: it deletes a machine of the list that
-- the NodeClaim names
abbrev pub DeletesNamed : List Machine → NodeClaim → Write → Type 0
DeletesNamed machines nc w =
    (m : Machine) × Memᴰ m machines × (names nc m ≡ true) × (w ≡ delete_machine m.name)

-- No machine outside the list is listed later.
abbrev pub Stays : Kube → List Machine → Type 0
Stays kube machines =
    (h : History) (ms : List Machine) (m : Machine)
    → kube.list_machines h ≡ ok ms
    → Memᴰ m ms
    → Memᴰ m machines

delete-Adds :
    (kube : Kube) (machines : List Machine) (nc : NodeClaim) (h : History)
    → Stays kube machines
    → Adds (DeletesNamed machines nc) h (Machines.delete kube nc h).1
unfolding Machines.delete Machines.delete_by_owner Machines.get
delete-Adds kube machines nc h stays = elim (Result-cases (kube.list_machines h)) [
  | inl (ms, e) ↦
      rw (delete-deletion kube nc ms h e) (elim (Option-cases (find_first (names nc) ms)) [
        | inl missing ↦ rw missing (Adds-refl _ h)
        | inr (m, found) ↦
            let (there, named) = find_first-Mem _ m ms found in
            rw found
              (delete_machine m.name ∷ [], refl, ((m, stays h ms m e there, named, refl), tt))
      ])
  | inr (f, e) ↦ elim (Bool-cases (nc.provider_id == "")) [
    | inl blank ↦ rw (Machines.delete, blank, Machines.delete_by_owner, e) (Adds-refl _ h)
    | inr given ↦ rw (Machines.delete, given, Machines.get, e) (Adds-refl _ h)
  ]
]

Mem-copies : (a m : Machine) (owners : List OwnerReference) → Memᴰ a (copies m owners) → a ≡ m
Mem-copies a m [] h = elim h [ ]
Mem-copies a m (o ∷ owners) h = elim (Bool-cases (o.kind == nodeclaim_kind)) [
  | inl claim ↦ elim (rw claim at h) [
    | Memᴰ.head e ↦ e
    | Memᴰ.tail later ↦ Mem-copies a m owners later
  ]
  | inr other ↦ Mem-copies a m owners (rw other at h)
]

Mem-owned_machines : (a : Machine) (ms : List Machine) → Memᴰ a (owned_machines ms) → Memᴰ a ms
unfolding owned_machines
Mem-owned_machines a [] h = elim h [ ]
Mem-owned_machines a (m ∷ ms) h = elim (Mem-append a (copies m m.owners) (owned_machines ms) h) [
  | inl first ↦ Memᴰ.head (Mem-copies a m m.owners first)
  | inr later ↦ Memᴰ.tail (Mem-owned_machines a ms later)
]

-- a machine that is managed and not being deleted, older than 30 seconds, and that no NodeClaim of the
-- cluster owns
abbrev pub is_taken : List NodeClaim → String → Bool
is_taken claims name =
    any_of (λ (n : NodeClaim). not (owned_machine n == "") && owned_machine n == name) claims

abbrev pub IsOrphan : ℕ → List NodeClaim → Machine → Type 0
IsOrphan now claims m =
    ((not (text_at Labels.annotation_managed_by m.annotations == "")
        && not (text_of m.phase == phase_deleting))
      ≡ true)
    × (is_taken claims m.name ≡ false)
    × (30 * 10 ^ 9 < now - m.created)

-- `w` deletes an orphan of the list, by its own name.
abbrev pub DeletesOrphan : ℕ → List NodeClaim → List Machine → Write → Type 0
DeletesOrphan now claims machines w =
    (m : Machine) × Memᴰ m machines × IsOrphan now claims m × (w ≡ delete_machine m.name)

-- A provider ID that is not empty is that of one machine, and no machine has an owner without name.
abbrev pub IsDistinct : List Machine → Type 0
IsDistinct machines =
    ((m n : Machine)
      → Memᴰ m machines
      → Memᴰ n machines
      → has_provider_id (text_of n.provider_id) m ≡ true
      → text_of n.provider_id == "" ≡ false
      → m.name ≡ n.name)
    × ((m : Machine) → Memᴰ m machines → is_owned_by "" m ≡ false)

-- Create of the machine provider, which takes no part in the collection
abbrev pub Creator : Type 0 → Type 0
Creator R =
    NodeClass → NodeClaim → NodeClaimSpec R → List (InstanceType R) → History → Creation × History

abbrev pub machine_provider : {R : Type 0} → Kube → Creator R → MachineProvider R
machine_provider kube create = record {
  get = λ id h. elim (Machines.get kube id h) [ err e ↦ err e | ok m ↦ ok (some m) ];
  list = λ h. Machines.list kube h;
  create = create;
  delete = λ nc h. Machines.delete kube nc h;
}

module _ (s : Scheduling) (k : Karpenter s) (d : Decoders) (zones : ZoneProvider) (cache : Cache)
    (kube : Kube) (create : Creator s.Requirements)
    (get_node_class : History → String → String → Result NodeClass)
    (list_types : cache.C → ℕ → NodeClass → Result (List (InstanceType s.Requirements))) where
  abbrev pub backend : Backend s.Requirements cache.C
  backend = record {
    get_node_class = get_node_class;
    machines = machine_provider kube create;
    list_types = list_types;
  }

  -- the cloud provider as the collector sees it
  abbrev pub view : ℕ → GarbageCollection.CloudProvider
  view now = record {
    list = λ h. list s k d zones cache backend now h;
    delete = λ nc h. delete s k d zones cache backend nc h;
  }

  AreOf-Mem :
      (ms : List Machine) (ncs : List NodeClaim) (nc : NodeClaim)
      → AreOf s k d zones cache backend ms ncs
      → Memᴰ nc ncs
      → (m : Machine) × Memᴰ m ms × HasIdentity s k d zones m nc
  AreOf-Mem [] [] nc rows h = elim h [ ]
  AreOf-Mem [] (n ∷ ncs) nc rows h = absurd rows
  AreOf-Mem (m ∷ ms) [] nc rows h = absurd rows
  AreOf-Mem (m ∷ ms) (n ∷ ncs) nc (own, rows) (Memᴰ.head e) =
      (m, Memᴰ.head refl, subst (HasIdentity s k d zones m) (sym e) own)
  AreOf-Mem (m ∷ ms) (n ∷ ncs) nc (own, rows) (Memᴰ.tail later) =
      let (a, there, same) = AreOf-Mem ms ncs nc rows later in (a, Memᴰ.tail there, same)

  same_name :
      (machines : List Machine) (m n : Machine) (nc : NodeClaim)
      → IsDistinct machines
      → Memᴰ m machines
      → Memᴰ n machines
      → HasIdentity s k d zones n nc
      → names nc m ≡ true
      → m.name ≡ n.name
  unfolding names
  same_name machines m n nc (unique, named) here there (blank_name, id, created, owns, managed)
        hit =
      elim (Bool-cases (nc.provider_id == "")) [
        | inl blank ↦
            let owned : is_owned_by nc.name m ≡ true = rw (names, blank) at hit in
            let unowned = named m here in cc (rw blank_name at owned)
        | inr given ↦
            let carries : has_provider_id nc.provider_id m ≡ true = rw (names, given) at hit in
            unique m n here there (subst (λ i. has_provider_id i m ≡ true) id carries)
              (subst (λ i. i == "" ≡ false) id given)
      ]

  listed_owned :
      (machines : List Machine) (h : History)
      → kube.list_machines h ≡ ok machines
      → Machines.list kube h ≡ ok (owned_machines machines)
  unfolding Machines.list
  listed_owned machines h e = rw (Machines.list, e) refl

  orphan_of :
      (now : ℕ) (claims : List NodeClaim) (machines : List Machine) (ncs : List NodeClaim)
      → AreOf s k d zones cache backend (owned_machines machines) ncs
      → IsDistinct machines
      → (w : Write) → Collects kube (view now) (DeletesNamed machines) now ncs claims w
      → DeletesOrphan now claims machines w
  unfolding is_resolved
  orphan_of now claims machines ncs rows distinct w (nc, listed, (managed, free, old), own) =
      let (n, among, same) = AreOf-Mem (owned_machines machines) ncs nc rows listed in
      let there = Mem-owned_machines n machines among in
      let (blank_name, id, created, owns, manages) = same in
      let orphan : IsOrphan now claims n = (
        sym manages ∙ managed,
        subst (λ name. is_taken claims name ≡ false) owns free,
        subst (λ (time : ℕ). 30 * 10 ^ 9 < now - time) created old,
      ) in
      elim own [
        | inr e ↦ (n, there, orphan, e ∙ ap delete_machine owns)
        | inl (m, here, hit, e) ↦ (
          n,
          there,
          orphan,
          e ∙ ap delete_machine (same_name machines m n nc distinct here there same hit),
        )
      ]

  -- If the machines and the NodeClaims can be listed, no machine is listed later that is not
  -- listed now, a provider ID that is not empty is that of one machine, and no machine has a
  -- NodeClaim owner without name, then the garbage collector over the program's own cloud provider
  -- and machine provider writes nothing but deletions of listed machines that are managed and not
  -- being deleted, that no NodeClaim of the cluster owns, and that are older than 30 seconds.
  pub collect-DeletesOrphan :
      (now count : ℕ) (h : History) (machines : List Machine) (claims : List NodeClaim)
      → kube.list_machines h ≡ ok machines
      → kube.list_nodeclaims h ≡ ok claims
      → Stays kube machines
      → IsDistinct machines
      → Adds
          (DeletesOrphan now claims machines)
          h
          (GarbageCollection.reconcile kube (view now) now count h).2
  unfolding GarbageCollection.reconcile delete
  collect-DeletesOrphan now count h machines claims listed known stays distinct =
      elim (Result-cases (list s k d zones cache backend now h)) [
        | inr (e, failing) ↦ rw (GarbageCollection.reconcile, failing) (Adds-refl _ h)
        | inl (ncs, got) ↦
            let all =
              list-ListsAll s k d zones cache backend now h (owned_machines machines)
                (listed_owned machines h listed) in
            let (readable, rows) = rw got at all in
            Adds-mono _ _ h _ (orphan_of now claims machines ncs rows distinct) (
              reconcile-Collects kube (view now) (DeletesNamed machines) now count h ncs claims
                machines (λ nc h. delete-Adds kube machines nc h stays) got known listed)
      ]
