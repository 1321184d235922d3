-- ===== src/Network.antt =====
-- pkg/providers/vpc/subnet.go, pkg/providers/vpc/sg.go and pkg/providers/sshkey/sshkey.go: the requests that
-- select the subnets, security groups and key pairs of a node class, and the union of the answers.
-- The cloud's API is a parameter. `lo.Values` gives the values of a map in any order; here they stand
-- in the order in which they were first set.
pub mod Batches
pub mod Terms
pub mod Union
use karpenter_provider_tke.Prelude.{
  ℕ, zero, suc, ◌+◌, ◌-◌, String, ◌==◌, Bool, not, Option, none, some, List, [], ◌∷◌, ◌++◌, map,
  if◌then◌else◌, ltb, length, take, drop, is_empty, Result, ok, err, plain, Dict, insert,
}
use karpenter_provider_tke.Strconv.{◌<>◌}
use karpenter_provider_tke.Kube.{text_of}

-- SubnetSelectorTerm, and the two others, which have the same fields
pub record SelectorTerm : Type 0 where
  pub id : String
  pub tags : Dict String

-- Filter of the cloud's two packages
pub record Filter : Type 0 where
  pub name : String
  pub values : List String

-- one round of the loop over the tags of a term
unfoldable pub tag_filter : String × String → Filter
tag_filter (k, v) =
    if v == "*"
    then record { name = "tag-key"; values = k ∷ [] }
    else record { name = "tag:" <> k; values = v ∷ [] }

-- values[i:end]
abbrev pub slice : ℕ → ℕ → List String → List String
slice i end values = take (end - i) (drop i values)

-- the end of a batch
abbrev pub end_of : ℕ → List String → ℕ
end_of i values = if ltb (length values) (i + 5) then length values else i + 5

abbrev pub batch_filter : ℕ → List String → Filter
batch_filter i values = record { name = "subnet-id"; values = slice i (end_of i values) values }

-- the loop over the batches from `i` on
unfoldable pub batches : ℕ → List String → ℕ → List (List Filter) → List (List Filter)
batches zero values i res = res
batches (suc fuel) values i res =
    let next = batches fuel values (i + 5) (res ++ (batch_filter i values ∷ []) ∷ []) in
    if ltb i (length values) then next else res

-- The loop over the terms: the IDs collect in one list, every other term is a filter set.
unfoldable pub split_terms :
    List SelectorTerm → List String → List (List Filter) → List String × List (List Filter)
split_terms [] ids res = (ids, res)
split_terms (t ∷ ts) ids res =
    split_terms ts (if not (t.id == "") then ids ++ t.id ∷ [] else ids)
      (if not (t.id == "") then res else res ++ map tag_filter t.tags ∷ [])

-- getSubnetFilterSets; a round takes five IDs, so as many rounds as there are IDs are enough.
unfoldable pub get_subnet_filter_sets : List SelectorTerm → List (List Filter)
get_subnet_filter_sets terms =
    let (ids, res) = split_terms terms [] [] in batches (length ids) ids 0 res

-- the security group IDs go into one filter
abbrev pub with_ids : List String → List (List Filter) → List (List Filter)
with_ids [] res = res
with_ids (id ∷ ids) res =
    res ++ (record { name = "security-group-id"; values = id ∷ ids } ∷ []) ∷ []

-- getSGFilterSets
unfoldable pub get_sg_filter_sets : List SelectorTerm → List (List Filter)
get_sg_filter_sets terms = let (ids, res) = split_terms terms [] [] in with_ids ids res

-- getFilterSets of the key pairs
unfoldable pub get_key_filter_sets : List SelectorTerm → List String × List (List Filter)
get_key_filter_sets terms = split_terms terms [] []

-- a request, by filters or by key IDs
pub data Request : Type 0 where
  by_filters : List Filter → Request
  by_ids : List String → Request

-- What the cloud answers to a request may depend on the requests before it, newest first.
pub record Client (A : Type 0) : Type 0 where
  pub id : A → Option String
  pub describe : List Request → Request → Result (List A)

abbrev pub values_of {ℓ} : {A : Type ℓ} → Dict A → List A
values_of [] = []
values_of ((k, v) ∷ m) = v ∷ values_of m

module _ {A : Type 0} (client : Client A) where
  abbrev pub key_of : A → String
  key_of a = text_of (client.id a)

  -- the loop over one answer
  unfoldable pub add_all : List A → Dict A → Dict A
  add_all [] m = m
  add_all (a ∷ more) m = add_all more (insert (key_of a) a m)

  -- The loop over the requests, with all requests made at its end. `text` is the error's.
  unfoldable pub gather :
      String → List Request → List Request → Dict A → Result (Dict A) × List Request
  gather text [] made m = (ok m, made)
  gather text (r ∷ rs) made m = elim (client.describe made r) [
    | err e ↦ (err (plain text), r ∷ made)
    | ok items ↦ gather text rs (r ∷ made) (add_all items m)
  ]

  abbrev pub finish : Result (Dict A) × List Request → Result (List A) × List Request
  finish (ok m, made) = (ok (values_of m), made)
  finish (err e, made) = (err e, made)

  -- every request of ListSubnets starts with the filter of the VPC
  unfoldable pub subnet_requests : String → List SelectorTerm → List Request
  subnet_requests vpc_id terms =
      map
        (λ (filter : List Filter).
          by_filters (record { name = "vpc-id"; values = vpc_id ∷ [] } ∷ filter))
        (get_subnet_filter_sets terms)

  -- ListSubnets
  unfoldable pub list_subnets : String → List SelectorTerm → Result (List A) × List Request
  list_subnets vpc_id terms =
      if is_empty (get_subnet_filter_sets terms)
      then (ok [], [])
      else finish (gather "describe subnets failed" (subnet_requests vpc_id terms) [] [])

  -- ListSecurityGroups
  unfoldable pub list_security_groups : List SelectorTerm → Result (List A) × List Request
  list_security_groups terms =
      if is_empty (get_sg_filter_sets terms)
      then (ok [], [])
      else finish
          (gather "describe subnets failed" (map by_filters (get_sg_filter_sets terms)) [] [])

  -- the requests of List for key pairs
  unfoldable pub key_requests : List String × List (List Filter) → List Request
  key_requests ([], sets) = map by_filters sets
  key_requests (id ∷ ids, sets) = by_ids (id ∷ ids) ∷ map by_filters sets

  -- List of the key pairs
  unfoldable pub list_key_pairs : List SelectorTerm → Result (List A) × List Request
  list_key_pairs terms =
      if is_empty (key_requests (get_key_filter_sets terms))
      then (ok [], [])
      else finish
          (gather "describe key pairs failed" (key_requests (get_key_filter_sets terms)) [] [])
