-- ===== src/InstanceType/Blacklist/Keys.antt =====
-- The keys of the cache tell blocked offerings apart.
use Prim.Native.Char.{code}
use text.Mathlib.TextLemmas.{
  cons-append, nil-append, append_assoc, append_cancel_left, head-eq_of_cons-eq, tail-eq_of_cons-eq,
}
use karpenter_provider_tke.Prelude.{String, ◌≡◌, ◌≢◌, refl, sym, ap, ap₂, ◌∙◌, arith, eq_iff}
use karpenter_provider_tke.Strconv.{◌<>◌, Lacks}
use karpenter_provider_tke.InstanceType.Blacklist.{blocked_key, failure_key}

-- A text up to its first dash is determined by the whole.
dash-injective :
    (s t u v : String)
    → Lacks b'-' s
    → Lacks b'-' t
    → s <> String.◌∷◌ "-" u ≡ t <> String.◌∷◌ "-" v
    → (s ≡ t) × (u ≡ v)
dash-injective String.[] String.[] u v hs ht e = (refl, tail-eq_of_cons-eq (simp nil-append at e))
dash-injective String.[] (String.◌∷◌ c t) u v hs ht e =
    absurd (ht.0 (ap code (sym (head-eq_of_cons-eq (simp (nil-append, cons-append) at e)))))
dash-injective (String.◌∷◌ c s) String.[] u v hs ht e =
    absurd (hs.0 (ap code (head-eq_of_cons-eq (simp (nil-append, cons-append) at e))))
dash-injective (String.◌∷◌ c s) (String.◌∷◌ d t) u v hs ht e =
    let f = simp cons-append at e in
    let (h, k) = dash-injective s t u v hs.1 ht.1 (tail-eq_of_cons-eq f) in
    (ap₂ String.◌∷◌ (head-eq_of_cons-eq f) h, k)

dash-append : (s : String) → "-" <> s ≡ String.◌∷◌ "-" s
dash-append s = cons-append "-" "" s ∙ ap (String.◌∷◌ "-") (nil-append s)

-- The capacity types that stand in a key.
pub data CapacityType : Type 0 where
  spot on_demand wildcard : CapacityType

abbrev pub spelled : CapacityType → String
spelled spot = "spot"
spelled on_demand = "on-demand"
spelled wildcard = "*"

-- the part of a capacity type before its first dash, and what follows
head_of : CapacityType → String
head_of spot = "spot"
head_of on_demand = "on"
head_of wildcard = "*"

rest_of : CapacityType → String → String
rest_of on_demand zone = "demand-" <> zone
rest_of _ zone = zone

spelled-head_of :
    (c : CapacityType) (zone : String)
    → spelled c <> "-" <> zone ≡ head_of c <> String.◌∷◌ "-" (rest_of c zone)
unfolding head_of rest_of
spelled-head_of spot zone = ap (λ s. "spot" <> s) (dash-append zone)
spelled-head_of on_demand zone =
    sym (append_assoc "on-demand" "-" zone)
    ∙ append_assoc "on" "-demand-" zone
    ∙ ap (λ s. "on" <> s) (cons-append "-" "demand-" zone)
spelled-head_of wildcard zone = ap (λ s. "*" <> s) (dash-append zone)

head_of-Lacks : (c : CapacityType) → Lacks b'-' (head_of c)
unfolding head_of
head_of-Lacks spot = omega arith
head_of-Lacks on_demand = omega arith
head_of-Lacks wildcard = omega arith

head_of-injective : (c d : CapacityType) → head_of c ≡ head_of d → c ≡ d
unfolding head_of
head_of-injective spot spot h = refl
head_of-injective on_demand on_demand h = refl
head_of-injective wildcard wildcard h = refl
head_of-injective spot on_demand h = ground (arith, eq_iff "spot" "on")
head_of-injective spot wildcard h = ground (arith, eq_iff "spot" "*")
head_of-injective on_demand spot h = ground (arith, eq_iff "on" "spot")
head_of-injective on_demand wildcard h = ground (arith, eq_iff "on" "*")
head_of-injective wildcard spot h = ground (arith, eq_iff "*" "spot")
head_of-injective wildcard on_demand h = ground (arith, eq_iff "*" "on")

rest_of-injective : (c : CapacityType) (z w : String) → rest_of c z ≡ rest_of c w → z ≡ w
unfolding rest_of
rest_of-injective spot z w h = h
rest_of-injective on_demand z w h = append_cancel_left "demand-" z w h
rest_of-injective wildcard z w h = h

capacity-injective :
    (c d : CapacityType) (z w : String)
    → spelled c <> "-" <> z ≡ spelled d <> "-" <> w
    → (c ≡ d) × (z ≡ w)
capacity-injective c d z w e =
    let (h, r) =
      dash-injective (head_of c) (head_of d) (rest_of c z) (rest_of d w) (head_of-Lacks c)
        (head_of-Lacks d) (sym (spelled-head_of c z) ∙ e ∙ spelled-head_of d w) in
    let same = head_of-injective c d h in
    (same, rest_of-injective c z w (r ∙ ap (λ k. rest_of k w) (sym same)))

triple-injective :
    (i j : String) (c d : CapacityType) (z w : String)
    → Lacks b'-' i
    → Lacks b'-' j
    → i <> "-" <> spelled c <> "-" <> z ≡ j <> "-" <> spelled d <> "-" <> w
    → (i ≡ j) × (c ≡ d) × (z ≡ w)
triple-injective i j c d z w hi hj e =
    let (same, rest) = dash-injective i j _ _ hi hj (
      ap (λ s. i <> s) (sym (dash-append (spelled c <> "-" <> z)))
      ∙ e
      ∙ ap (λ s. j <> s) (dash-append (spelled d <> "-" <> w))) in
    let (kind, zone) = capacity-injective c d z w rest in (same, kind, zone)

-- Two offerings have one key only if they are the same: instance types hold no dash.
pub blocked_key-injective :
    (i j : String) (c d : CapacityType) (z w : String)
    → Lacks b'-' i
    → Lacks b'-' j
    → blocked_key i (spelled c) z ≡ blocked_key j (spelled d) w
    → (i ≡ j) × (c ≡ d) × (z ≡ w)
unfolding blocked_key
blocked_key-injective i j c d z w hi hj e =
    triple-injective i j c d z w hi hj (append_cancel_left "blocked-ins-" _ _ e)

pub failure_key-injective :
    (i j : String) (c d : CapacityType) (z w : String)
    → Lacks b'-' i
    → Lacks b'-' j
    → failure_key i (spelled c) z ≡ failure_key j (spelled d) w
    → (i ≡ j) × (c ≡ d) × (z ≡ w)
unfolding failure_key
failure_key-injective i j c d z w hi hj e =
    triple-injective i j c d z w hi hj (append_cancel_left "failure-ins-" _ _ e)

-- A count is never taken for a block.
pub blocked_key-ne-failure_key : (i c z j d w : String) → blocked_key i c z ≢ failure_key j d w
unfolding blocked_key failure_key
blocked_key-ne-failure_key i c z j d w e =
    absurd (omega (arith, ap code (head-eq_of_cons-eq first_letters)))
  where
    first_letters :
        String.◌∷◌ "b" ("locked-ins-" <> i <> "-" <> c <> "-" <> z)
        ≡ String.◌∷◌ "f" ("ailure-ins-" <> j <> "-" <> d <> "-" <> w)
    first_letters = sym (cons-append "b" "locked-ins-" _) ∙ e ∙ cons-append "f" "ailure-ins-" _
