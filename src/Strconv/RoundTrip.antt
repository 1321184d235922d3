-- ===== src/Strconv/RoundTrip.antt =====
-- Decimal printing and reading.
use Prim.Native.Char.{code}
use karpenter_provider_tke.Prelude.{
  ℕ, zero, suc, ◌+◌, ◌-◌, ◌*◌, ◌/◌, ◌%◌, ◌^◌, ◌≤◌, ◌<◌, String, ◌≡◌, ◌≢◌, refl, some, arith, eqb,
  pos, inl, inr, Bool-cases,
}
use karpenter_provider_tke.Strconv.{digit, digits, itoa_ℕ, scan, atoi, Lacks}

code-digit : (d : ℕ) → d < 10 → code (digit d) ≡ b'0' + d
code-digit zero h = refl
code-digit (suc zero) h = refl
code-digit (suc (suc zero)) h = refl
code-digit (suc (suc (suc zero))) h = refl
code-digit (suc (suc (suc (suc zero)))) h = refl
code-digit (suc (suc (suc (suc (suc zero))))) h = refl
code-digit (suc (suc (suc (suc (suc (suc zero)))))) h = refl
code-digit (suc (suc (suc (suc (suc (suc (suc zero))))))) h = refl
code-digit (suc (suc (suc (suc (suc (suc (suc (suc zero)))))))) h = refl
code-digit (suc (suc (suc (suc (suc (suc (suc (suc (suc zero))))))))) h = refl
code-digit (suc (suc (suc (suc (suc (suc (suc (suc (suc (suc n)))))))))) h = absurd (omega arith)

-- Reading one printed digit behind `n`.
scan-digit :
    (d : ℕ) (out : String) (n : ℕ)
    → d < 10
    → scan (String.◌∷◌ (digit d) out) n ≡ scan out (n * 10 + d)
unfolding scan
scan-digit d out n h = rw (code-digit d h) (ground arith)

scan-digits : (fuel n : ℕ) (out : String) → n < fuel → scan (digits fuel n out) 0 ≡ scan out n
unfolding digits
scan-digits zero n out h = absurd (omega arith)
scan-digits (suc fuel) n out h = elim (Bool-cases (eqb (n / 10) 0)) [
  | inl last ↦ rw last (ground (arith, scan-digit n out 0))
  | inr more ↦ rw more (
      ground (
        arith,
        scan-digits fuel (n / 10) (String.◌∷◌ (digit (n % 10)) out),
        scan-digit (n % 10) out (n / 10),
      ))
]

abbrev IsDigitCode : ℕ → Type 0
IsDigitCode c = (b'0' ≤ c) × (c ≤ b'9')

abbrev AllDigits : String → Type 0
AllDigits String.[] = Unit
AllDigits (String.◌∷◌ c s) = IsDigitCode (code c) × AllDigits s

digit-IsDigitCode : (d : ℕ) → d < 10 → IsDigitCode (code (digit d))
digit-IsDigitCode d h = omega (arith, code-digit d h)

digits-AllDigits :
    (fuel n : ℕ) (out : String) → n < fuel → AllDigits out → AllDigits (digits fuel n out)
unfolding digits
digits-AllDigits zero n out h a = absurd (omega arith)
digits-AllDigits (suc fuel) n out h a = elim (Bool-cases (eqb (n / 10) 0)) [
  | inl last ↦ rw last (digit-IsDigitCode n (ground arith), a)
  | inr more ↦ rw more (
      digits-AllDigits fuel (n / 10) (String.◌∷◌ (digit (n % 10)) out) (ground arith)
        (digit-IsDigitCode (n % 10) (omega arith), a))
]

digits-ne-nil : (fuel n : ℕ) (out : String) → n < fuel → digits fuel n out ≢ ""
unfolding digits
digits-ne-nil zero n out h e = absurd (omega arith)
digits-ne-nil (suc fuel) n out h e = elim (Bool-cases (eqb (n / 10) 0)) [
  | inl last ↦ cc (rw last at e)
  | inr more ↦
      digits-ne-nil fuel (n / 10) (String.◌∷◌ (digit (n % 10)) out) (ground arith) (rw more at e)
]

Lacks-dash : (s : String) → AllDigits s → Lacks b'-' s
Lacks-dash String.[] a = tt
Lacks-dash (String.◌∷◌ c s) a = (omega arith, Lacks-dash s a.1)

pub itoa_ℕ-Lacks : (n : ℕ) → Lacks b'-' (itoa_ℕ n)
unfolding itoa_ℕ
itoa_ℕ-Lacks n = Lacks-dash _ (digits-AllDigits (suc n) n "" (omega arith) tt)

atoi-scan :
    (s : String) (n : ℕ)
    → AllDigits s
    → s ≢ ""
    → scan s 0 ≡ some n
    → n ≤ 2 ^ 63 - 1
    → atoi s ≡ some (pos n)
unfolding atoi
atoi-scan String.[] n a ne e h = absurd (ne refl)
atoi-scan (String.◌∷◌ c s) n a ne e h = ground arith

-- Reading the decimal print of a number that an `int` holds gives the number.
pub atoi-itoa : (n : ℕ) → n ≤ 2 ^ 63 - 1 → atoi (itoa_ℕ n) ≡ some (pos n)
unfolding itoa_ℕ
atoi-itoa n h =
    atoi-scan _ n (digits-AllDigits (suc n) n "" (omega arith) tt)
      (digits-ne-nil (suc n) n "" (omega arith))
      (unfold scan in scan-digits (suc n) n "" (omega arith)) h
