-- ===== src/InstanceType/Offerings.antt =====
-- pkg/providers/instancetype/instancetype.go: the part of List that joins what the cloud sells, on
-- demand and spot, into the offerings of each instance type.
pub mod Complete
use karpenter_provider_tke.Prelude.{
  ℕ, String, ◌==◌, Bool, true, false, ◌&&◌, Option, none, some, List, [], ◌∷◌, ◌++◌, if◌then◌else◌,
  pos, ltb_ℤ, Result, ok, err, Dict, lookup, insert,
}
use karpenter_provider_tke.Labels
use karpenter_provider_tke.Scheduling.{Scheduling, operator_in, Offering}
use karpenter_provider_tke.Zone.{ZoneProvider}
use karpenter_provider_tke.InstanceType.Capacity.{InstanceTypeQuotaItem}

-- The zone ID of an offering, empty where the zone is not known: the code drops the error.
abbrev pub id_or_blank : Result String → String
id_or_blank (ok id) = id
id_or_blank (err e) = ""

-- `blocked` is isBlocked at the time of the listing, on the item's name, a capacity type and a zone.
module _ (s : Scheduling) (zones : ZoneProvider) (blocked : String → String → String → Bool) where
  open s use {Requirements, new_requirement, new_requirements}

  abbrev pub Offerings : Type 0
  Offerings = List (Offering Requirements)

  -- createOfferings
  unfoldable pub create_offerings : String → InstanceTypeQuotaItem → Offerings
  create_offerings capacity_type ins_type =
      let one = λ (key word : String). new_requirement key operator_in (word ∷ []) in
      record {
        requirements = new_requirements (
            one Labels.capacity_type_label_key capacity_type
            ∷ one Labels.label_topology_zone (id_or_blank (zones.id_from_zone ins_type.zone))
            ∷ one Labels.label_cbs_toplogy ins_type.zone
            ∷ []);
        price = ins_type.unit_price;
        available = ins_type.status == "SELL" && ltb_ℤ (pos 0) ins_type.inventory;
      }
      ∷ []

  -- m[k] of a map to slices, nil where the key is missing
  abbrev pub or_nil : Option Offerings → Offerings
  or_nil none = []
  or_nil (some os) = os

  unfoldable pub offerings_at : String → Dict Offerings → Offerings
  offerings_at k m = or_nil (lookup k m)

  unfoldable pub add_offerings : String → InstanceTypeQuotaItem → Dict Offerings → Dict Offerings
  add_offerings capacity_type i m =
      insert i.instance_type (offerings_at i.instance_type m ++ create_offerings capacity_type i) m

  pub record Maps : Type 0 where
    pub offerings_map : Dict Offerings
    pub instance_type_map : Dict InstanceTypeQuotaItem

  -- the closure of lo.SliceToMap over the on-demand types
  unfoldable pub add_on_demand : List InstanceTypeQuotaItem → Maps → Maps
  add_on_demand [] m = m
  add_on_demand (i ∷ items) m = add_on_demand items (record {
    offerings_map =
        if blocked i.instance_type Labels.capacity_type_on_demand i.zone
        then m.offerings_map
        else add_offerings Labels.capacity_type_on_demand i m.offerings_map;
    instance_type_map = insert i.instance_type i m.instance_type_map;
  })

  -- `if _, ok := instanceTypeMap[…]; !ok`
  abbrev if_absent : InstanceTypeQuotaItem → Dict InstanceTypeQuotaItem → Dict InstanceTypeQuotaItem
  if_absent i m = elim (lookup i.instance_type m) [
    | none ↦ insert i.instance_type i m
    | some other ↦ m
  ]

  -- the loop over the spot types
  unfoldable pub add_spot : List InstanceTypeQuotaItem → Maps → Maps
  add_spot [] m = m
  add_spot (i ∷ items) m = add_spot items (
      if blocked i.instance_type Labels.capacity_type_spot i.zone then m else record {
        offerings_map = add_offerings Labels.capacity_type_spot i m.offerings_map;
        instance_type_map = if_absent i m.instance_type_map;
      })

  unfoldable pub join_types : List InstanceTypeQuotaItem → List InstanceTypeQuotaItem → Maps
  join_types on_demand_types spot_types =
      add_spot spot_types
        (add_on_demand on_demand_types (record { offerings_map = []; instance_type_map = [] }))
