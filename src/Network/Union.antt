-- ===== src/Network/Union.antt =====
-- The lists of subnets, security groups and key pairs, when the cloud answers every request.
use karpenter_provider_tke.Prelude.{
  ◌≡◌, ◌≢◌, refl, sym, ap, subst, ◌∙◌, String, ◌==◌, eq_iff, Bool, List, [], ◌∷◌, ◌++◌, map, arith,
  Option, none, some, Bool-cases, Option-cases, inl, inr, All, find_first, is_empty, if◌then◌else◌,
  Result, Error, ok, err, plain, Dict, lookup, insert, lookup-insert,
}
use karpenter_provider_tke.Network.{
  SelectorTerm, Request, by_filters, Client, values_of, key_of, add_all, gather, finish,
  subnet_requests, list_subnets, get_subnet_filter_sets, list_security_groups, get_sg_filter_sets,
  get_key_filter_sets, key_requests, list_key_pairs,
}

module _ {A : Type 0} (client : Client A) where
  -- the last of the items that has the ID
  unfoldable pub latest : String → List A → Option A
  latest k [] = none
  latest k (a ∷ items) = elim (latest k items) [
    | none ↦ if key_of client a == k then some a else none
    | some b ↦ some b
  ]

  -- no two items have the same ID
  abbrev pub Distinct : List A → Type 0
  Distinct [] = Unit
  Distinct (a ∷ items) = All (λ b. key_of client b ≢ key_of client a) items × Distinct items

  abbrev over : Option A → Option A → Option A
  over none old = old
  over (some new) old = some new

  lookup-add_all :
      (k : String) (items : List A) (m : Dict A)
      → lookup k (add_all client items m) ≡ over (latest k items) (lookup k m)
  unfolding add_all latest
  lookup-add_all k [] m = refl
  lookup-add_all k (a ∷ items) m =
      lookup-add_all k items (insert (key_of client a) a m)
      ∙ (elim (Option-cases (latest k items)) [
        | inr (b, e) ↦ rw e refl
        | inl e ↦ rw (e, lookup-insert (key_of client a) k a m) (ground arith)
      ])

  add_all-append :
      (xs ys : List A) (m : Dict A)
      → add_all client (xs ++ ys) m ≡ add_all client ys (add_all client xs m)
  unfolding add_all
  add_all-append [] ys m = refl
  add_all-append (x ∷ xs) ys m = add_all-append xs ys (insert (key_of client x) x m)

  -- every item stands under its own ID, and no ID stands twice
  abbrev Keyed : Dict A → Type 0
  Keyed [] = Unit
  Keyed ((k, a) ∷ m) =
      (key_of client a ≡ k) × All (λ b. key_of client b ≢ k) (values_of m) × Keyed m

  insert-other :
      (k : String) (a : A) (j : String) (m : Dict A)
      → key_of client a ≢ j
      → All (λ b. key_of client b ≢ j) (values_of m)
      → All (λ b. key_of client b ≢ j) (values_of (insert k a m))
  unfolding insert
  insert-other k a j [] ne all = (ne, tt)
  insert-other k a j ((i, b) ∷ m) ne (first, all) = elim (Bool-cases (i == k)) [
    | inl same ↦ rw same (ne, all)
    | inr other ↦ rw other (first, insert-other k a j m ne all)
  ]

  insert-Keyed : (a : A) (m : Dict A) → Keyed m → Keyed (insert (key_of client a) a m)
  unfolding insert
  insert-Keyed a [] keyed = (refl, tt, tt)
  insert-Keyed a ((i, b) ∷ m) (own, apart, keyed) = elim (Bool-cases (i == key_of client a)) [
    | inl same ↦ rw same (
      refl,
      subst (λ j. All (λ b. key_of client b ≢ j) (values_of m))
          ((eq_iff i (key_of client a)).0 same) apart,
      keyed,
    )
    | inr other ↦ rw other (
      own,
      insert-other (key_of client a) a i m
          (λ e. let hit = (eq_iff i (key_of client a)).1 (sym e) in cc) apart,
      insert-Keyed a m keyed,
    )
  ]

  add_all-Keyed : (items : List A) (m : Dict A) → Keyed m → Keyed (add_all client items m)
  unfolding add_all
  add_all-Keyed [] m keyed = keyed
  add_all-Keyed (a ∷ items) m keyed = add_all-Keyed items _ (insert-Keyed a m keyed)

  Keyed-Distinct : (m : Dict A) → Keyed m → Distinct (values_of m)
  Keyed-Distinct [] keyed = tt
  Keyed-Distinct ((k, a) ∷ m) (own, apart, keyed) = (rw own apart, Keyed-Distinct m keyed)

  find_first-lookup :
      (k : String) (m : Dict A)
      → Keyed m
      → find_first (λ a. key_of client a == k) (values_of m) ≡ lookup k m
  unfolding lookup
  find_first-lookup k [] keyed = refl
  find_first-lookup k ((j, a) ∷ m) (own, apart, keyed) = rw (own, find_first-lookup k m keyed) refl

  -- what the cloud answers to the requests, one after another
  unfoldable pub all_answers : (Request → List A) → List Request → List A
  all_answers answers [] = []
  all_answers answers (r ∷ rs) = answers r ++ all_answers answers rs

  -- the requests made, newest first
  unfoldable pub made_all : List Request → List Request → List Request
  made_all [] made = made
  made_all (r ∷ rs) made = made_all rs (r ∷ made)

  gather-answers :
      (answers : Request → List A) (text : String) (rs made : List Request) (m : Dict A)
      → ((made : List Request) (r : Request) → client.describe made r ≡ ok (answers r))
      → gather client text rs made m
        ≡ (ok (add_all client (all_answers answers rs) m), made_all rs made)
  unfolding gather all_answers made_all add_all
  gather-answers answers text [] made m answered = refl
  gather-answers answers text (r ∷ rs) made m answered =
      rw (answered made r, gather)
        (gather-answers answers text rs (r ∷ made) (add_all client (answers r) m) answered
          ∙ ap (λ d. (ok d, made_all rs (r ∷ made)))
              (sym (add_all-append (answers r) (all_answers answers rs) m)))

  -- the union of what the cloud answers
  abbrev pub union : List A → List A
  union items = values_of (add_all client items [])

  -- A list that the cloud answers: the union, of which the last item with an ID is the one found.
  abbrev pub IsUnion :
      (Request → List A) → String → List Request → Result (List A) × List Request → Type 0
  IsUnion answers k asked result =
      (result ≡ (ok (union (all_answers answers asked)), made_all asked []))
      × Distinct (union (all_answers answers asked))
      × (find_first (λ a. key_of client a == k) (union (all_answers answers asked))
          ≡ latest k (all_answers answers asked))

  over-none : (o : Option A) → over o none ≡ o
  over-none none = refl
  over-none (some a) = refl

  union-latest :
      (k : String) (items : List A)
      → Distinct (union items)
        × (find_first (λ a. key_of client a == k) (union items) ≡ latest k items)
  unfolding lookup
  union-latest k items =
      let keyed = add_all-Keyed items [] tt in
      (
        Keyed-Distinct _ keyed,
        find_first-lookup k _ keyed ∙ lookup-add_all k items [] ∙ over-none (latest k items),
      )

  is_empty-map : {B : Type 0} (f : B → Request) (bs : List B) → is_empty (map f bs) ≡ is_empty bs
  is_empty-map f [] = refl
  is_empty-map f (b ∷ bs) = refl

  gathered :
      (answers : Request → List A) (text : String) (asked : List Request)
      → ((made : List Request) (r : Request) → client.describe made r ≡ ok (answers r))
      → (if is_empty asked then (ok [], []) else finish client (gather client text asked [] []))
        ≡ (ok (union (all_answers answers asked)), made_all asked [])
  unfolding all_answers made_all add_all
  gathered answers text [] answered = refl
  gathered answers text (r ∷ rs) answered =
      ap (finish client) (gather-answers answers text (r ∷ rs) [] [] answered)

  all_asked :
      (answers : Request → List A) (k text : String) (asked : List Request) (none_asked : Bool)
      → is_empty asked ≡ none_asked
      → ((made : List Request) (r : Request) → client.describe made r ≡ ok (answers r))
      → IsUnion answers k asked
          (if none_asked then (ok [], []) else finish client (gather client text asked [] []))
  all_asked answers k text asked none_asked e answered =
      let (apart, found) = union-latest k (all_answers answers asked) in
      (rw (sym e) (gathered answers text asked answered), apart, found)

  -- If the cloud answers every request, the lists of subnets, security groups and key pairs are
  -- each the union of the answers to all their requests, in turn: no two items have the same ID,
  -- and the item with an ID is the last one answered that has it, if there is one.
  pub lists-IsUnion :
      (answers : Request → List A) (k vpc_id : String) (terms : List SelectorTerm)
      → ((made : List Request) (r : Request) → client.describe made r ≡ ok (answers r))
      → IsUnion answers k (subnet_requests client vpc_id terms) (list_subnets client vpc_id terms)
        × IsUnion answers k
            (map by_filters (get_sg_filter_sets terms))
            (list_security_groups client terms)
        × IsUnion answers k
            (key_requests client (get_key_filter_sets terms))
            (list_key_pairs client terms)
  unfolding list_subnets list_security_groups list_key_pairs subnet_requests
  lists-IsUnion answers k vpc_id terms answered = (
    all_asked answers k _ _ _ (is_empty-map _ (get_subnet_filter_sets terms)) answered,
    all_asked answers k _ _ _ (is_empty-map by_filters (get_sg_filter_sets terms)) answered,
    all_asked answers k _ _ _ refl answered,
  )

  -- If the requests before one are answered and that one fails, the loop over the requests ends
  -- there with its error text, and makes none of the requests behind it.
  pub gather-error :
      (answers : Request → List A) (text : String) (before : List Request) (failing : Request)
      (after made : List Request) (m : Dict A) (e : Error)
      → ((made : List Request) → All (λ r. client.describe made r ≡ ok (answers r)) before)
      → client.describe (made_all before made) failing ≡ err e
      → gather client text (before ++ failing ∷ after) made m
        ≡ (err (plain text), failing ∷ made_all before made)
  unfolding gather made_all
  gather-error answers text [] failing after made m e answered fails = rw (gather, fails) refl
  gather-error answers text (r ∷ before) failing after made m e answered fails =
      rw ((answered made).0, gather)
        (gather-error answers text before failing after (r ∷ made) _ e (λ made. (answered made).1)
          fails)
