-- ===== src/NativeNode/Duplicates/Pairs.antt =====
-- RemoveDuplicateKVPairs a second time changes nothing.
use Prim.Native.Char.{Char, code}
use text.Mathlib.TextLemmas.{cons-append, nil-append}
use text.Mathlib.TextEquality.{Char-path}
use mathlib.Core.List.{append_assoc, append-nil}
use mathlib.Core.Option.{some-injective}
use karpenter_provider_tke.Prelude.{
  ◌≡◌, refl, sym, ap, subst, ◌∙◌, String, false, List, [], ◌∷◌, ◌++◌, some, Bool-cases,
  Option-cases, inl, inr, eqb, eqb_iff,
}
use karpenter_provider_tke.Strconv.{◌<>◌, split_two}
use karpenter_provider_tke.NativeNode.Duplicates.{
  is_seen, keep_pairs, reversed, remove_duplicate_kv_pairs,
}

reversed-append : (xs ys : List String) → reversed (xs ++ ys) ≡ reversed ys ++ reversed xs
unfolding reversed
reversed-append [] ys = sym (append-nil _)
reversed-append (x ∷ xs) ys =
    ap (λ r. r ++ x ∷ []) (reversed-append xs ys) ∙ append_assoc (reversed ys) (reversed xs) _

pub reversed-reversed : (xs : List String) → reversed (reversed xs) ≡ xs
unfolding reversed
reversed-reversed [] = refl
reversed-reversed (x ∷ xs) =
    reversed-append (reversed xs) (x ∷ []) ∙ ap (λ r. x ∷ r) (reversed-reversed xs)

abbrev join : String × String → String
join (k, v) = k <> "=" <> v

join-hit : (c : Char) (s : String) → code c ≡ 61 → join ("", s) ≡ String.◌∷◌ c s
join-hit c s e =
    nil-append ("=" <> s)
    ∙ cons-append "=" "" s
    ∙ ap (λ r. String.◌∷◌ "=" r) (nil-append s)
    ∙ ap (λ d. String.◌∷◌ d s) (sym (Char-path c "=" e))

-- A text that has a separator is its two parts, joined by it.
join-split_two : (line : String) (p : String × String) → split_two 61 line ≡ some p → join p ≡ line
unfolding split_two
join-split_two String.[] p h = cc
join-split_two (String.◌∷◌ c s) p h = elim (Bool-cases (eqb (code c) 61)) [
  | inl hit ↦
      subst (λ (q : String × String). join q ≡ String.◌∷◌ c s)
        (some-injective ("", s) p (rw hit at h)) (join-hit c s ((eqb_iff (code c) 61).0 hit))
  | inr miss ↦ elim (Option-cases (split_two 61 s)) [
    | inl missing ↦ cc (rw (miss, missing) at h)
    | inr ((k, v), found) ↦
        subst (λ (q : String × String). join q ≡ String.◌∷◌ c s)
          (some-injective (String.◌∷◌ c k, v) p (rw (miss, found) at h))
          (cons-append c k ("=" <> v) ∙ ap (λ r. String.◌∷◌ c r) (join-split_two s (k, v) found))
  ]
]

-- every line is a pair with a key that was not seen
abbrev pub ArePairs : List String → List String → Type 0
ArePairs seen [] = Unit
ArePairs seen (line ∷ lines) =
    (k : String) × (v : String) × (split_two 61 line ≡ some (k, v))
    × (is_seen k seen ≡ false)
    × ArePairs (k ∷ seen) lines

pub keep_pairs-ArePairs : (seen lines : List String) → ArePairs seen (keep_pairs seen lines)
unfolding keep_pairs
keep_pairs-ArePairs seen [] = tt
keep_pairs-ArePairs seen (line ∷ lines) = elim (Option-cases (split_two 61 line)) [
  | inl missing ↦ rw (keep_pairs, missing) (keep_pairs-ArePairs seen lines)
  | inr ((k, v), found) ↦ elim (Bool-cases (is_seen k seen)) [
    | inl known ↦ rw (keep_pairs, found, known) (keep_pairs-ArePairs seen lines)
    | inr fresh ↦
        rw (keep_pairs, found, fresh)
          (
            k,
            v,
            ap (split_two 61) (join-split_two line (k, v) found) ∙ found,
            fresh,
            keep_pairs-ArePairs (k ∷ seen) lines,
          )
  ]
]

pub keep_pairs_fixed :
    (seen lines : List String) → ArePairs seen lines → keep_pairs seen lines ≡ lines
unfolding keep_pairs
keep_pairs_fixed seen [] pairs = refl
keep_pairs_fixed seen (line ∷ lines) (k, v, found, fresh, pairs) =
    rw (keep_pairs, found, fresh)
      (ap (λ l. l ∷ keep_pairs (k ∷ seen) lines) (join-split_two line (k, v) found)
        ∙ ap (λ r. line ∷ r) (keep_pairs_fixed (k ∷ seen) lines pairs))

-- RemoveDuplicateKVPairs changes nothing in what it has returned.
pub remove_duplicate_kv_pairs_idem :
    (lines : List String)
    → remove_duplicate_kv_pairs (remove_duplicate_kv_pairs lines) ≡ remove_duplicate_kv_pairs lines
unfolding remove_duplicate_kv_pairs
remove_duplicate_kv_pairs_idem lines =
    ap (λ r. reversed (keep_pairs [] r)) (reversed-reversed (keep_pairs [] (reversed lines)))
    ∙ ap reversed (
        keep_pairs_fixed [] (keep_pairs [] (reversed lines))
          (keep_pairs-ArePairs [] (reversed lines)))
