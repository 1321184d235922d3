-- ===== src/NodeClass/Status/Sorting.antt =====
-- What the two sorts of the node class status make of lists that are rearranged.
use mathlib.Core.List.{Mem, Perm}
use mathlib.Core.List.Perm
use native.Mathlib.Decide.{ℕ_discrete}
use text.Mathlib.TextEquality.{IsScalar-prop}
use karpenter_provider_tke.Prelude.{
  ◌≡◌, refl, ap, arith, String, Bool, false, List, [], ◌∷◌, map, IsOrder, IsSorted, IsTotal,
  sorted_unique,
}
use karpenter_provider_tke.NodeClass.{VpcSubnet, Subnet, Cloud, to_status, is_before}

-- sort.Slice, as documented for a strict order
pub record IsSorting (A : Type 0) (sort : (A → A → Bool) → List A → List A) : Type 0 where
  pub rearranges : (less : A → A → Bool) (xs : List A) → IsOrder A less → Perm (sort less xs) xs
  pub orders : (less : A → A → Bool) (xs : List A) → IsOrder A less → IsSorted less (sort less xs)

-- The order of texts is total, both sorts are as documented.
pub record IsDocumented (cloud : Cloud) : Type 0 where
  pub order : IsOrder String cloud.before
  pub total : (a b : String) → cloud.before a b ≡ false → cloud.before b a ≡ false → a ≡ b
  pub sorts_subnets : IsSorting VpcSubnet cloud.sort_subnets
  pub sorts_ids : IsSorting String cloud.sort_ids

-- no two subnets have the same ID
abbrev pub HaveIds : List VpcSubnet → Type 0
HaveIds ns = (a b : VpcSubnet) → Mem a ns → Mem b ns → a.subnet_id ≡ b.subnet_id → a ≡ b

is_before-IsOrder :
    (before : String → String → Bool) → IsOrder String before → IsOrder VpcSubnet (is_before before)
unfolding is_before
is_before-IsOrder before ids = record {
  asym = λ a b h. ground (arith, h, ids.asym a.subnet_id b.subnet_id);
  cotrans = λ a b c h k. ground (arith, h, k, ids.cotrans a.subnet_id b.subnet_id c.subnet_id);
}

is_before-neither :
    (before : String → String → Bool) (a b : VpcSubnet)
    → is_before before a b ≡ false
    → is_before before b a ≡ false
    → (before a.subnet_id b.subnet_id ≡ false) × (before b.subnet_id a.subnet_id ≡ false)
unfolding is_before
is_before-neither before a b h k = ground (arith, h, k)

-- Two arrangements of one list are sorted alike.
sort-perm :
    (A : Type 0) (sort : (A → A → Bool) → List A → List A) (less : A → A → Bool) (xs ys : List A)
    → IsSet A
    → IsSorting A sort
    → IsOrder A less
    → IsTotal less xs
    → Perm xs ys
    → sort less xs ≡ sort less ys
sort-perm A sort less xs ys set sorts order total p =
    let back : Perm (sort less xs) xs = sorts.rearranges less xs order in
    sorted_unique less set (sort less xs) (sort less ys)
      (λ a b ha hb. total a b ((Perm.mem_iff back).0 ha) ((Perm.mem_iff back).0 hb))
      (sorts.orders less xs order) (sorts.orders less ys order)
      (Perm.trans back (Perm.trans p (Perm.symm (sorts.rearranges less ys order))))

pub VpcSubnet-set : IsSet VpcSubnet
VpcSubnet-set = hlevel (ℕ_discrete, IsScalar-prop)

String-set : IsSet String
String-set = hlevel (ℕ_discrete, IsScalar-prop)

module _ (cloud : Cloud) where
  -- the status that a list of subnets gives
  abbrev pub subnets_status : List VpcSubnet → List Subnet
  subnets_status [] = []
  subnets_status (n ∷ ns) =
      map (to_status cloud) (cloud.sort_subnets (is_before cloud.before) (n ∷ ns))

  -- the status that a list of IDs gives
  abbrev pub ids_status : List String → List String
  ids_status [] = []
  ids_status (g ∷ gs) = cloud.sort_ids cloud.before (g ∷ gs)

  module _ (documented : IsDocumented cloud) where
    pub ids_status-perm : (xs ys : List String) → Perm xs ys → ids_status xs ≡ ids_status ys
    ids_status-perm [] [] p = refl
    ids_status-perm [] (y ∷ ys) p = cc (Perm.nil-eq p)
    ids_status-perm (x ∷ xs) [] p = cc (Perm.eq-nil p)
    ids_status-perm (x ∷ xs) (y ∷ ys) p =
        sort-perm String cloud.sort_ids cloud.before (x ∷ xs) (y ∷ ys) String-set
          documented.sorts_ids documented.order (λ a b ha hb. documented.total a b) p

    HaveIds-IsTotal : (ns : List VpcSubnet) → HaveIds ns → IsTotal (is_before cloud.before) ns
    HaveIds-IsTotal ns distinct a b ha hb h k =
        let (left, right) = is_before-neither cloud.before a b h k in
        distinct a b ha hb (documented.total a.subnet_id b.subnet_id left right)

    pub subnets_status-perm :
        (xs ys : List VpcSubnet) → HaveIds xs → Perm xs ys → subnets_status xs ≡ subnets_status ys
    subnets_status-perm [] [] distinct p = refl
    subnets_status-perm [] (y ∷ ys) distinct p = cc (Perm.nil-eq p)
    subnets_status-perm (x ∷ xs) [] distinct p = cc (Perm.eq-nil p)
    subnets_status-perm (x ∷ xs) (y ∷ ys) distinct p = ap (map (to_status cloud)) (
        sort-perm VpcSubnet cloud.sort_subnets (is_before cloud.before) (x ∷ xs) (y ∷ ys)
          VpcSubnet-set documented.sorts_subnets (is_before-IsOrder cloud.before documented.order)
          (HaveIds-IsTotal (x ∷ xs) distinct) p)
