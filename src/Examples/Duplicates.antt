-- ===== src/Examples/Duplicates.antt =====
-- Lists with repeated elements, and arguments with repeated keys.
use karpenter_provider_tke.Prelude.{◌≡◌, refl, [], ◌∷◌}
use karpenter_provider_tke.NativeNode.Duplicates.{
  remove_duplicate, keep_pairs, reversed, remove_duplicate_kv_pairs,
}
use karpenter_provider_tke.Strconv.{split_two}
use karpenter_provider_tke.NativeNode.Duplicates.InPlace.{firsts, remove_duplicate-firsts}

firsts_test : firsts [] ("a" ∷ "" ∷ "b" ∷ "a" ∷ "c" ∷ []) ≡ "a" ∷ "b" ∷ "c" ∷ []
unfolding firsts
firsts_test = refl

remove_duplicate-firsts_example :
    remove_duplicate ("a" ∷ "" ∷ "b" ∷ "a" ∷ "c" ∷ []) ≡ firsts [] ("a" ∷ "" ∷ "b" ∷ "a" ∷ "c" ∷ [])
remove_duplicate-firsts_example = remove_duplicate-firsts ("a" ∷ "" ∷ "b" ∷ "a" ∷ "c" ∷ [])

remove_duplicate_kv_pairs_test :
    remove_duplicate_kv_pairs ("a=1" ∷ "x" ∷ "b=2" ∷ "a=3" ∷ []) ≡ "b=2" ∷ "a=3" ∷ []
unfolding remove_duplicate_kv_pairs keep_pairs reversed split_two
remove_duplicate_kv_pairs_test = refl
