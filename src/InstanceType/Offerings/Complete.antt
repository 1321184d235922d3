-- ===== src/InstanceType/Offerings/Complete.antt =====
-- Which offerings an instance type gets.
use mathlib.Core.List.{append_assoc, append-nil}
use karpenter_provider_tke.Prelude.{
  ◌≡◌, refl, sym, ap, ◌∙◌, String, ◌==◌, eq_iff, Bool, not, ◌&&◌, List, [], ◌∷◌, ◌++◌,
  if◌then◌else◌, arith, Dict, lookup, lookup-insert, Bool-cases, inl, inr,
}
use karpenter_provider_tke.Labels
use karpenter_provider_tke.Scheduling.{Scheduling}
use karpenter_provider_tke.Zone.{ZoneProvider}
use karpenter_provider_tke.InstanceType.Capacity.{InstanceTypeQuotaItem}
use karpenter_provider_tke.InstanceType.Offerings.{
  Offerings, Maps, create_offerings, offerings_at, or_nil, add_offerings, add_on_demand, add_spot,
  join_types,
}

module _ (s : Scheduling) (zones : ZoneProvider) (blocked : String → String → String → Bool) where
  -- the offerings of the items of one name that are not blocked, in the order of the items
  pub offered : String → String → List InstanceTypeQuotaItem → Offerings s zones blocked
  offered capacity_type name [] = []
  offered capacity_type name (i ∷ items) =
      let rest = offered capacity_type name items in
      if i.instance_type == name && not (blocked i.instance_type capacity_type i.zone)
      then create_offerings s zones blocked capacity_type i ++ rest
      else rest

  offerings_at-add :
      (capacity_type name : String) (i : InstanceTypeQuotaItem)
      (m : Dict (Offerings s zones blocked))
      → offerings_at s zones blocked name (add_offerings s zones blocked capacity_type i m) ≡ (
          if i.instance_type == name
          then offerings_at s zones blocked name m
            ++ create_offerings s zones blocked capacity_type i
          else offerings_at s zones blocked name m)
  unfolding offerings_at add_offerings
  offerings_at-add capacity_type name i m =
      ap (or_nil s zones blocked) (lookup-insert i.instance_type name _ m)
      ∙ elim (Bool-cases (i.instance_type == name)) [
        | inl same ↦ rw (
          same,
          ap (λ k. or_nil s zones blocked (lookup k m)) ((eq_iff i.instance_type name).0 same),
        )
        | inr other ↦ rw other
      ]

  on_demand-offered :
      (items : List InstanceTypeQuotaItem) (m : Maps s zones blocked) (name : String)
      → offerings_at s zones blocked name (add_on_demand s zones blocked items m).offerings_map
        ≡ offerings_at s zones blocked name m.offerings_map
          ++ offered Labels.capacity_type_on_demand name items
  unfolding add_on_demand offered
  on_demand-offered [] m name = sym (append-nil _)
  on_demand-offered (i ∷ items) m name =
      rw (on_demand-offered items _ name)
        (elim (Bool-cases (blocked i.instance_type Labels.capacity_type_on_demand i.zone)) [
          | inl stop ↦ rw stop (ground arith)
          | inr go ↦
              rw (go, offerings_at-add Labels.capacity_type_on_demand name i)
                (elim (Bool-cases (i.instance_type == name)) [
                  | inl same ↦ rw same (
                      append_assoc (offerings_at s zones blocked name m.offerings_map)
                        (create_offerings s zones blocked Labels.capacity_type_on_demand i)
                        (offered Labels.capacity_type_on_demand name items))
                  | inr other ↦ rw other
                ])
        ])

  spot-offered :
      (items : List InstanceTypeQuotaItem) (m : Maps s zones blocked) (name : String)
      → offerings_at s zones blocked name (add_spot s zones blocked items m).offerings_map
        ≡ offerings_at s zones blocked name m.offerings_map
          ++ offered Labels.capacity_type_spot name items
  unfolding add_spot offered
  spot-offered [] m name = sym (append-nil _)
  spot-offered (i ∷ items) m name =
      rw (spot-offered items _ name)
        (elim (Bool-cases (blocked i.instance_type Labels.capacity_type_spot i.zone)) [
          | inl stop ↦ rw stop (ground arith)
          | inr go ↦
              rw (go, offerings_at-add Labels.capacity_type_spot name i)
                (elim (Bool-cases (i.instance_type == name)) [
                  | inl same ↦ rw same (
                      append_assoc (offerings_at s zones blocked name m.offerings_map)
                        (create_offerings s zones blocked Labels.capacity_type_spot i)
                        (offered Labels.capacity_type_spot name items))
                  | inr other ↦ rw other
                ])
        ])

  -- The offerings that a listing gives an instance type are those of the cloud's items of its name
  -- that are not blocked: the on-demand ones and then the spot ones, in the cloud's order.
  pub offerings-join_types :
      (on_demand_types spot_types : List InstanceTypeQuotaItem) (name : String)
      → offerings_at s zones blocked name
          (join_types s zones blocked on_demand_types spot_types).offerings_map
        ≡ offered Labels.capacity_type_on_demand name on_demand_types
          ++ offered Labels.capacity_type_spot name spot_types
  unfolding join_types
  offerings-join_types on_demand_types spot_types name =
      rw (spot-offered spot_types _ name, on_demand-offered on_demand_types _ name)
        (ap
          (λ os.
            (os ++ offered Labels.capacity_type_on_demand name on_demand_types)
            ++ offered Labels.capacity_type_spot name spot_types)
          nothing_yet)
    where
      nothing_yet : offerings_at s zones blocked name [] ≡ []
      nothing_yet = unfold offerings_at lookup in refl
