-- ===== src/Machines/Creation/Placement.antt =====
-- What Create sends: where the machine is put, who owns it, and what is bought.
use mathlib.Core.List.{Memᴰ}
use karpenter_provider_tke.Prelude.{
  ℕ, ◌≡◌, refl, ap, subst, String, ◌==◌, eq_iff, false, List, [], ◌∷◌, arith, if◌then◌else◌, length,
  take, find_first, find_first-Mem, Result, ok, err, relabel, ◌>>=◌, Option-cases, Result-cases,
  Bool-cases, inl, inr, suc,
}
use karpenter_provider_tke.Labels
use karpenter_provider_tke.Kube.{NodeClaim, create_machine, History}
use karpenter_provider_tke.NativeNode.{
  ProviderSpec, MachineSpec, machine_type_native, machine_type_native_cvm, spotpaid_charge_type,
  postpaid_by_hour_charge_type,
}
use karpenter_provider_tke.Scheduling.{Scheduling}
use karpenter_provider_tke.NodeClass.{NodeClass, Subnet}
use karpenter_provider_tke.Machines.Selection.{Types}
use karpenter_provider_tke.Machines.Creation.{NodeClassSpec, DataDisk}
use karpenter_provider_tke.Machines.Creation.Disks.{data_disks_of}
use karpenter_provider_tke.Machines.Creation.Build.{
  Env, subnet_in, subnet_or_error, five_of, choose, or_panic, labels_of, tags_of, is_spot,
  provider_spec_of, machine_of, machine_spec_of, Plan, plan, send_plan, create,
}
use karpenter_provider_tke.CloudProvider.Launch.{Creation, refused, failed, created}

-- a property of the value, where there is one
abbrev Holds {ℓ κ} : {A : Type ℓ} → (A → Type κ) → Result A → Type κ
Holds P (ok a) = P a
Holds P (err e) = Unit

Holds-bind {ℓ κ μ} :
    {A : Type ℓ} {B : Type κ} (P : B → Type μ) (r : Result A) (f : A → Result B)
    → ((a : A) → r ≡ ok a → Holds P (f a))
    → Holds P (r >>= f)
Holds-bind P (ok a) f h = h a refl
Holds-bind P (err e) f h = tt

ok-injective {ℓ} : {A : Type ℓ} {a b : A} → ok a ≡ ok b → a ≡ b
ok-injective h = cc

-- A subnet that is found is one of the class's, in the zone, and has an ID.
subnet_found :
    (zone id : String) (subnets : List Subnet)
    → subnet_or_error zone (subnet_in zone subnets) ≡ ok id
    → (n : Subnet) × Memᴰ n subnets × (n.zone ≡ zone) × (n.id ≡ id) × (id == "" ≡ false)
unfolding subnet_in
subnet_found zone id subnets h =
    elim (Option-cases (find_first (λ (n : Subnet). n.zone == zone) subnets)) [
      | inl missing ↦ cc (rw (subnet_in, missing) at h)
      | inr (n, found) ↦
          let (there, same) = find_first-Mem _ n subnets found in
          let given = rw (subnet_in, found) at h in
          elim (Bool-cases (n.id == "")) [
            | inl blank ↦ cc (rw blank at given)
            | inr some_id ↦
                let e = ok-injective (rw some_id at given) in
                (n, there, (eq_iff _ _).0 same, e, subst (λ i. i == "" ≡ false) e some_id)
          ]
    ]

five_of-take : (ids : List String) → five_of ids ≡ take 5 ids
five_of-take [] = refl
five_of-take (a ∷ []) = refl
five_of-take (a ∷ b ∷ []) = refl
five_of-take (a ∷ b ∷ c ∷ []) = refl
five_of-take (a ∷ b ∷ c ∷ d ∷ []) = refl
five_of-take (a ∷ b ∷ c ∷ d ∷ e ∷ ids) = ground arith

length-data_disks_of :
    (clean : String → String) (spec : NodeClassSpec) (i : ℕ) (ds : List DataDisk)
    → length (data_disks_of clean spec i ds) ≡ length ds
unfolding data_disks_of
length-data_disks_of clean spec i [] = refl
length-data_disks_of clean spec i (d ∷ ds) = ap suc (length-data_disks_of clean spec (suc i) ds)

module _ (s : Scheduling) (env : Env s) where
  -- what holds of the machine, the rest of its spec, and its provider spec
  abbrev pub IsPlaced : NodeClass → NodeClassSpec → NodeClaim → Plan s env → Type 0
  IsPlaced class spec nc (m, ms, ps) =
      ((n : Subnet) × Memᴰ n class.subnets
        × (n.zone ≡ m.zone)
        × (n.id ≡ ms.subnet_id)
        × (ms.subnet_id == "" ≡ false))
      × (m.owners ≡ record { kind = nc.kind; name = nc.name } ∷ [])
      × (env.encode ps ≡ ok m.raw_spec)
      × (ps.security_group_ids ≡ take 5 class.security_groups)
      × (ps.key_ids ≡ class.ssh_keys)
      × (length ps.data_disks ≡ length spec.data_disks)
      × (ps.instance_charge_type
          ≡ (if is_spot s env m.labels then spotpaid_charge_type else postpaid_by_hour_charge_type))
      × (ms.provider_type
          ≡ (if is_spot s env m.labels then machine_type_native_cvm else machine_type_native))

  plan-IsPlaced :
      (h : History) (class : NodeClass) (spec : NodeClassSpec) (nc : NodeClaim)
      (requirements : s.Requirements) (its : Types s)
      → Holds (IsPlaced class spec nc) (plan s env h class spec nc requirements its)
  unfolding plan provider_spec_of machine_of machine_spec_of
  plan-IsPlaced h class spec nc requirements its =
      let P = IsPlaced class spec nc in
      Holds-bind P (choose s env requirements its) _ λ it e1.
        Holds-bind P
          (or_panic (s.cheapest (s.compatible_offerings (s.available it.offerings) requirements))) _
          λ o e2.
            Holds-bind P
              (relabel "getting zone failed: "
                (env.zones.zone_from_id (s.any (s.get o.requirements Labels.label_topology_zone))))
              _
              λ zone e3.
                Holds-bind P (subnet_or_error zone (subnet_in zone class.subnets)) _ λ subnet e4.
                  Holds-bind P
                    (env.encode
                      (provider_spec_of s env class spec nc it (labels_of s env class nc it o)))
                    _
                    λ raw e5. Holds-bind P (tags_of env.marshal_tags spec.tags) _ λ tags e6. (
                      subnet_found zone subnet class.subnets e4,
                      refl,
                      e5,
                      five_of-take class.security_groups,
                      refl,
                      length-data_disks_of env.clean spec 0 spec.data_disks,
                      refl,
                      refl,
                    )

  -- what Create has sent, by what it returns
  abbrev pub Sends : NodeClass → NodeClassSpec → NodeClaim → History → Creation × History → Type 0
  Sends class spec nc h (refused e, after) = after ≡ h
  Sends class spec nc h (failed m ty e, after) =
      (ms : MachineSpec) × (ps : ProviderSpec) × (after ≡ create_machine m ms ∷ h)
      × (ty ≡ ps.instance_type)
      × (env.kube.write h (create_machine m ms) ≡ err e)
      × IsPlaced class spec nc (m, ms, ps)
  Sends class spec nc h (created m ty, after) =
      (ms : MachineSpec) × (ps : ProviderSpec) × (after ≡ create_machine m ms ∷ h)
      × (ty ≡ ps.instance_type)
      × (env.kube.write h (create_machine m ms) ≡ ok tt)
      × IsPlaced class spec nc (m, ms, ps)

  -- Create of the machine provider writes nothing when it returns no machine, and otherwise sends
  -- one machine, with the server's answer: it lies in the zone of a subnet of the node class and
  -- takes that subnet, which has an ID; the NodeClaim is its only owner; its provider spec is the
  -- encoded one, with the first five security groups and all key pairs of the node class, a disk
  -- for each data disk, and the charge type and machine type of spot exactly if it is labelled as
  -- spot.
  pub create-Sends :
      (class : NodeClass) (spec : NodeClassSpec) (nc : NodeClaim) (requirements : s.Requirements)
      (its : Types s) (h : History)
      → Sends class spec nc h (create s env class spec nc requirements its h)
  unfolding create send_plan
  create-Sends class spec nc requirements its h =
      elim (Result-cases (plan s env h class spec nc requirements its)) [
        | inr (e, stopped) ↦ rw (create, stopped) refl
        | inl ((m, ms, ps), planned) ↦
            let placed : IsPlaced class spec nc (m, ms, ps) =
              rw planned at (plan-IsPlaced h class spec nc requirements its) in
            elim (Result-cases (env.kube.write h (create_machine m ms))) [
              | inl (u, sent) ↦
                  rw (create, planned, send_plan, sent) (ms, ps, refl, refl, sent, placed)
              | inr (e, sent) ↦
                  rw (create, planned, send_plan, sent) (ms, ps, refl, refl, sent, placed)
            ]
      ]
