-- ===== src/Examples.antt =====
-- Concrete values for the parameters of the model, and the theorems applied to them.
mod Zones
mod InstanceTypes
mod Controllers
mod ProviderIds
mod Choices
mod Annotations
mod CloudProviders
mod Defaults
mod Duplicates
mod Creations
mod Listings
mod Networks
mod NodeClasses
mod Orders
mod Statuses
use karpenter_provider_tke.Prelude.{
  ℕ, ◌+◌, ◌*◌, ◌/◌, ◌-◌, ◌≤◌, ◌≡◌, ap, ◌∙◌, refl, String, ◌==◌, eq_iff, Bool, true, false, Option,
  none, some, List, [], ◌∷◌, arith, if◌then◌else◌, leb, Dict, lookup, insert, lookup-insert,
  Bool-cases, Option-cases, inl, inr, any_of, keep_if, is_empty, ℤ, pos, negsuc, pos_part, ◌≤ℤ◌,
  eqb, all_of, ltb,
}
use karpenter_provider_tke.Scheduling.{Scheduling, Offering, Operator, operator_in, does_not_exist}
use karpenter_provider_tke.InstanceType.Level.{Float64, decimal}
use karpenter_provider_tke.InstanceType.Blacklist.{Item, Cache}

-- a cache of values with their deadlines
abbrev pub Entries : Type 0
Entries = Dict (ℕ × Item)

abbrev pub alive : Option (ℕ × Item) → ℕ → Option Item
alive none now = none
alive (some (deadline, v)) now = if leb now deadline then some v else none

unfoldable pub get_entry : Entries → ℕ → String → Option Item
get_entry c now k = alive (lookup k c) now

unfoldable pub put_entry : Entries → ℕ → ℕ → String → Item → Entries
put_entry c now ttl k v = insert k (now + ttl, v) c

pub get_entry-put_entry :
    (c : Entries) (now ttl later : ℕ) (k j : String) (v : Item)
    → now ≤ later
    → get_entry (put_entry c now ttl k v) later j
      ≡ (if k == j then (if leb later (now + ttl) then some v else none) else get_entry c later j)
unfolding get_entry put_entry
get_entry-put_entry c now ttl later k j v h =
    ap (λ o. alive o later) (lookup-insert k j (now + ttl, v) c) ∙ ground arith

abbrev pub memory_cache : Cache
memory_cache = record {
  C = Entries;
  get = get_entry;
  put = put_entry;
  get-put = get_entry-put_entry;
}

-- A requirement is a key with its operator and values; requirements are a list of these.
abbrev pub Req : Type 0
Req = String × Operator × List String

abbrev pub values_of : Req → List String
values_of (key, op, vs) = vs

abbrev pub key_of : Req → String
key_of (key, op, vs) = key

abbrev pub allows : Req → String → Bool
allows (key, operator_in, vs) v = any_of (λ w. w == v) vs
allows (key, does_not_exist, vs) v = false

abbrev pub first_of : List String → String
first_of [] = ""
first_of (v ∷ vs) = v

abbrev pub get_req : List Req → String → Req
get_req [] key = (key, does_not_exist, [])
get_req (r ∷ rs) key = let rest = get_req rs key in if key_of r == key then r else rest

abbrev pub meets : List Req → List Req → Bool
meets rs [] = true
meets rs (q ∷ qs) =
    let rest = meets rs qs in
    if any_of (λ v. allows q v) (values_of (get_req rs (key_of q))) then rest else false

abbrev pub cheaper : Offering (List Req) → Option (Offering (List Req)) → Offering (List Req)
cheaper o none = o
cheaper o (some p) = if leb o.price p.price then o else p

abbrev pub cheapest_of : List (Offering (List Req)) → Option (Offering (List Req))
cheapest_of [] = none
cheapest_of (o ∷ os) = some (cheaper o (cheapest_of os))

abbrev pub simple_scheduling : Scheduling
simple_scheduling = record {
  Requirement = Req;
  Requirements = List Req;
  new_requirement = λ key op vs. (key, op, vs);
  new_requirements = λ rs. rs;
  get = get_req;
  has = allows;
  any = λ r. first_of (values_of r);
  values = values_of;
  has_min_values = λ rs. false;
  compatible = λ rs qs. meets rs qs;
  available = λ os. keep_if (λ o. o.available) os;
  compatible_offerings = λ os rs. keep_if (λ o. meets o.requirements rs) os;
  cheapest = cheapest_of;
}

pub differ : (a b : String) → a == b ≡ false → a ≡ b → ⊥
differ a b h e = ground (arith, eq_iff a b)
