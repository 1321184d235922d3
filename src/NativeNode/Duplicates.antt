-- ===== src/NativeNode/Duplicates.antt =====
-- staging/nativenode/v1beta1/defaults.go: removeDuplicate, which works in place: it writes the kept
-- elements to the front of the slice that it reads, and cuts the slice off after them.
pub mod InPlace
pub mod Pairs
use karpenter_provider_tke.Prelude.{
  ℕ, zero, suc, String, ◌==◌, Bool, not, ◌&&◌, List, [], ◌∷◌, ◌++◌, length, take, any_of,
  if◌then◌else◌, Option, none, some,
}
use karpenter_provider_tke.Strconv.{◌<>◌, split_two}

-- s[i]; out of range the empty text stands for the panic, which does not occur.
unfoldable pub at : ℕ → List String → String
at i [] = ""
at zero (x ∷ xs) = x
at (suc i) (x ∷ xs) = at i xs

-- s[i] = v
unfoldable pub set_at : ℕ → String → List String → List String
set_at i v [] = []
set_at zero v (x ∷ xs) = v ∷ xs
set_at (suc i) v (x ∷ xs) = x ∷ set_at i v xs

abbrev pub is_seen : String → List String → Bool
is_seen v m = any_of (λ w. w == v) m

-- `v != "" && !m[v]`, where the keys of m are a list
abbrev pub is_fresh : String → List String → Bool
is_fresh v m = not (v == "") && not (is_seen v m)

-- the loop, from the index on: the slice and the keys
unfoldable pub dedupe : ℕ → ℕ → List String → List String → List String × List String
dedupe zero i s m = (s, m)
dedupe (suc n) i s m =
    let v = at i s in
    dedupe n (suc i) (if is_fresh v m then set_at (length m) v s else s)
      (if is_fresh v m then v ∷ m else m)

-- removeDuplicate, and removeDuplicateComponent, which does the same
unfoldable pub remove_duplicate : List String → List String
remove_duplicate s = let (kept, m) = dedupe (length s) 0 s [] in take (length m) kept

-- the loop of RemoveDuplicateKVPairs, over the lines from the last one on
unfoldable pub keep_pairs : List String → List String → List String
keep_pairs seen [] = []
keep_pairs seen (line ∷ lines) = elim (split_two 61 line) [
  | none ↦ keep_pairs seen lines
  | some (k, v) ↦
      let rest = keep_pairs (k ∷ seen) lines in
      if is_seen k seen then keep_pairs seen lines else (k <> "=" <> v) ∷ rest
]

unfoldable pub reversed : List String → List String
reversed [] = []
reversed (x ∷ xs) = reversed xs ++ x ∷ []

-- RemoveDuplicateKVPairs
unfoldable pub remove_duplicate_kv_pairs : List String → List String
remove_duplicate_kv_pairs lines = reversed (keep_pairs [] (reversed lines))
