-- ===== src/Options/Accepted.antt =====
-- Which options the program starts with.
use karpenter_provider_tke.Prelude.{
  ◌≡◌, ◌↔◌, refl, sym, ap, subst, ◌∙◌, arith, ◌==◌, Bool, false, List, [], ◌∷◌, Error,
}
use karpenter_provider_tke.Options.{
  Options, Parsed, help, failed, parsed, started, validate_required_fields,
  validate_vm_memory_overhead_percent, validate, checked, parse,
}

module _ {F : Type 0} (is_negative : F → Bool) where
  abbrev pub IsValid : Options F → Type 0
  IsValid o =
      (is_negative o.vm_memory_overhead_percent ≡ false)
      × ((o.region == "") ≡ false)
      × ((o.cluster_id == "") ≡ false)
      × ((o.secret_id == "") ≡ false)
      × ((o.secret_key == "") ≡ false)

  validate-nil : (o : Options F) → (validate is_negative o ≡ []) ↔ IsValid o
  unfolding validate validate_required_fields validate_vm_memory_overhead_percent
  validate-nil o = (λ h. ground (arith, h), λ v. ground (arith, v))

  -- The program starts with options exactly if the parser of flags gives them, none of the four texts is
  -- empty, and the overhead is not negative.
  pub parse-started :
      (answer : Parsed F) (o : Options F)
      → (parse is_negative answer ≡ started o) ↔ ((answer ≡ parsed o) × IsValid o)
  unfolding parse
  parse-started help o = (λ h. cc, λ (a, b). cc)
  parse-started (failed text) o = (λ h. cc, λ (a, b). cc)
  parse-started (parsed p) o = by_errors (validate is_negative p) refl
    where
      by_errors :
          (es : List Error)
          → validate is_negative p ≡ es
          → (checked is_negative p es ≡ started o) ↔ ((parsed p ≡ parsed o) × IsValid o)
      by_errors [] e = (
        λ h.
            let same : p ≡ o = cc in
            (ap parsed same, subst (λ (x : Options F). IsValid x) same ((validate-nil p).0 e)),
        λ (a, v). let same : p ≡ o = cc in ap started same,
      )
      by_errors (f ∷ fs) e = (
        λ h. cc,
        λ (a, v).
            let same : p ≡ o = cc in
            let none_found : validate is_negative p ≡ [] =
              (validate-nil p).1 (subst (λ (x : Options F). IsValid x) (sym same) v) in
            cc (sym e ∙ none_found),
      )
