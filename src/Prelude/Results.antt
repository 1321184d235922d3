-- ===== src/Prelude/Results.antt =====
-- Go's `(value, error)`. An error is kept as the kind that the code tests for.
use mathlib.Core.Bool.{Bool, true, false}
use mathlib.Core.Path.{◌≡◌, refl}
use mathlib.Core.Logic.{◌⊎◌, inl, inr}
use Prim.Native.String.{String}

-- `plain` carries the text that the code gives it, or the text that a cloud API returns.
pub data Error : Type 0 where
  plain : String → Error
  not_found conflict : Error
  nodeclaim_not_found insufficient_capacity : Error

pub data Result {ℓ} (A : Type ℓ) : Type ℓ where
  ok : A → Result A
  err : Error → Result A

infixl 5 ◌>>=◌
abbrev pub ◌>>=◌ {ℓ κ} : {A : Type ℓ} {B : Type κ} → Result A → (A → Result B) → Result B
ok a >>= f = f a
err e >>= f = err e

-- fmt.Errorf with %v: the kind is lost, and the text is what stands before the verb.
abbrev pub relabel {ℓ} : {A : Type ℓ} → String → Result A → Result A
relabel text (ok a) = ok a
relabel text (err e) = err (plain text)

abbrev pub is_ok {ℓ} : {A : Type ℓ} → Result A → Bool
is_ok (ok a) = true
is_ok (err e) = false

-- client.IgnoreNotFound
abbrev pub ignore_not_found : Result (Unit {0}) → Result (Unit {0})
ignore_not_found (err not_found) = ok tt
ignore_not_found r = r

-- cloudprovider.IgnoreNodeClaimNotFoundError
abbrev pub ignore_nodeclaim_not_found : Result (Unit {0}) → Result (Unit {0})
ignore_nodeclaim_not_found (err nodeclaim_not_found) = ok tt
ignore_nodeclaim_not_found r = r

pub Result-cases {ℓ} :
    {A : Type ℓ} (r : Result A) → ((a : A) × (r ≡ ok a)) ⊎ ((e : Error) × (r ≡ err e))
Result-cases (ok a) = inl (a, refl)
Result-cases (err e) = inr (e, refl)
