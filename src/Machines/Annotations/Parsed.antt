-- ===== src/Machines/Annotations/Parsed.antt =====
-- What resourceListFromAnnotations makes of the texts that it finds.
use karpenter_provider_tke.Prelude.{
  ◌≡◌, refl, sym, ap, ◌∙◌, String, Bool, true, false, Option, none, some, is_some, List, [], ◌∷◌,
  map, all_of, lookup, insert, lookup-insert, Option-cases, inl, inr, arith, ◌==◌, All, Bool-cases,
  Dict,
}
use karpenter_provider_tke.Scheduling.{Quantity, ResourceList}
use karpenter_provider_tke.Machines.Annotations.{
  set_parsed, pick, set_all, lookup-set_all, texts, resource_list_from_annotations,
}

module _ (parse : String → Option Quantity) where
  -- MustParse does not panic on the text, if there is one.
  abbrev pub parses : Option String → Bool
  parses none = true
  parses (some text) = is_some (parse text)

  abbrev pub parsed : Option String → Option Quantity
  parsed none = none
  parsed (some text) = parse text

  abbrev pub values : List (String × Option String) → List (String × Option Quantity)
  values es = map (λ (e : String × Option String). (e.0, parsed e.1)) es

  pub set_parsed-parses :
      (es : List (String × Option String)) (r : ResourceList)
      → is_some (set_parsed parse es r) ≡ all_of (λ (e : String × Option String). parses e.1) es
  unfolding set_parsed
  set_parsed-parses [] r = refl
  set_parsed-parses ((k, none) ∷ es) r = set_parsed-parses es r
  set_parsed-parses ((k, some text) ∷ es) r = elim (Option-cases (parse text)) [
    | inl e ↦ rw (set_parsed, e) refl
    | inr (q, e) ↦ rw (set_parsed, e) (set_parsed-parses es (insert k q r))
  ]

  pub lookup-set_parsed :
      (j : String) (es : List (String × Option String)) (m r : ResourceList)
      → set_parsed parse es m ≡ some r
      → lookup j r ≡ pick j (values es) (lookup j m)
  unfolding set_parsed
  lookup-set_parsed j [] m r h = ap (lookup j) (sym (cc h))
  lookup-set_parsed j ((k, none) ∷ es) m r h =
      lookup-set_parsed j es m r h ∙ ap (pick j (values es)) (ground arith)
  lookup-set_parsed j ((k, some text) ∷ es) m r h = elim (Option-cases (parse text)) [
    | inl e ↦ cc (rw (set_parsed, e) at h)
    | inr (q, e) ↦
        lookup-set_parsed j es (insert k q m) r (rw (set_parsed, e) at h)
        ∙ ap (pick j (values es)) (lookup-insert k j q m ∙ rw e (ground arith))
  ]

  parses-pick :
      (j : String) (es : List (String × Option String)) (v : Option String)
      → All (λ (e : String × Option String). parses e.1 ≡ true) es
      → parses v ≡ true
      → parses (pick j es v) ≡ true
  parses-pick j [] v h given = given
  parses-pick j ((k, none) ∷ es) v h given = parses-pick j es _ h.1 (ground (arith, given))
  parses-pick j ((k, some text) ∷ es) v h given =
      parses-pick j es _ h.1 (elim (Bool-cases (k == j)) [ inl e ↦ rw e h.0 | inr e ↦ rw e given ])

  pub parses-set_all :
      (j : String) (es : List (String × Option String))
      → All (λ (e : String × Option String). parses e.1 ≡ true) es
      → parses (lookup j (set_all es [])) ≡ true
  unfolding lookup
  parses-set_all j es h = ap parses (lookup-set_all j es []) ∙ parses-pick j es none h refl

  -- No text is read that MustParse panics on.
  pub texts-parse :
      (group : String) (annotations : Dict String)
      → ((k : String) → parses (lookup k annotations) ≡ true)
      → (r : ResourceList) × (resource_list_from_annotations parse group annotations ≡ some r)
  unfolding resource_list_from_annotations
  texts-parse group annotations h =
      elim (Option-cases (resource_list_from_annotations parse group annotations)) [
        | inr found ↦ found
        | inl e ↦
            let found : is_some (resource_list_from_annotations parse group annotations) ≡ false =
              rw e refl in
            let all : all_of (λ (e : String × Option String). parses e.1) (texts group annotations)
                ≡ true =
              simp h in
            cc (found, set_parsed-parses (texts group annotations) [], all)
      ]
