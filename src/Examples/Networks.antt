-- ===== src/Examples/Networks.antt =====
-- The network and key providers at a node class with six subnet IDs and one term of tags.
use karpenter_provider_tke.Prelude.{
  ◌+◌, ◌/◌, ◌≡◌, refl, String, List, [], ◌∷◌, ◌++◌, map, some, All, length, ok, err, not_found,
}
use karpenter_provider_tke.Network.{
  SelectorTerm, Filter, Request, by_filters, by_ids, Client, batches, tag_filter,
  get_subnet_filter_sets, get_sg_filter_sets, get_key_filter_sets, subnet_requests, list_subnets,
  list_security_groups, key_requests, list_key_pairs, split_terms,
}
use karpenter_provider_tke.Network.Batches.{IsBatch, all_values}
use karpenter_provider_tke.Network.Terms.{tag_sets, ids_of, get_subnet_filter_sets-IsBatch}
use karpenter_provider_tke.Network.Union.{IsUnion, lists-IsUnion}

abbrev six_ids : List String
six_ids = "s-1" ∷ "s-2" ∷ "s-3" ∷ "s-4" ∷ "s-5" ∷ "s-6" ∷ []

abbrev by_id : String → SelectorTerm
by_id id = record { id = id; tags = [] }

abbrev terms : List SelectorTerm
terms = record { id = ""; tags = ("env", "*") ∷ ("app", "web") ∷ [] } ∷ map by_id six_ids

abbrev answers : Request → List String
answers (by_filters fs) = "s-2" ∷ "s-1" ∷ "s-2" ∷ []
answers (by_ids ids) = ids

abbrev client : Client String
client = record { id = λ s. some s; describe = λ made r. ok (answers r) }

abbrev failing_client : Client String
failing_client = record {
  id = λ s. some s;
  describe = λ made r. elim r [ by_filters fs ↦ err not_found | by_ids ids ↦ ok ids ];
}

subnet_filter_sets_test :
    get_subnet_filter_sets terms
    ≡ (record { name = "tag-key"; values = "env" ∷ [] }
        ∷ record { name = "tag:app"; values = "web" ∷ [] }
        ∷ [])
      ∷ (record { name = "subnet-id"; values = "s-1" ∷ "s-2" ∷ "s-3" ∷ "s-4" ∷ "s-5" ∷ [] } ∷ [])
      ∷ (record { name = "subnet-id"; values = "s-6" ∷ [] } ∷ [])
      ∷ []
unfolding get_subnet_filter_sets split_terms batches tag_filter
subnet_filter_sets_test = refl

get_subnet_filter_sets-IsBatch_example :
    (bs : List (List Filter)) × (get_subnet_filter_sets terms ≡ tag_sets terms ++ bs)
    × All IsBatch bs
    × (all_values bs ≡ ids_of terms)
    × (length bs ≡ (length (ids_of terms) + 4) / 5)
get_subnet_filter_sets-IsBatch_example = get_subnet_filter_sets-IsBatch terms

lists-IsUnion_example :
    IsUnion client answers "s-1"
      (subnet_requests client "vpc-1" terms)
      (list_subnets client "vpc-1" terms)
    × IsUnion client answers "s-1"
        (map by_filters (get_sg_filter_sets terms))
        (list_security_groups client terms)
    × IsUnion client answers "s-1"
        (key_requests client (get_key_filter_sets terms))
        (list_key_pairs client terms)
lists-IsUnion_example = lists-IsUnion client answers "s-1" "vpc-1" terms (λ made r. refl)
