-- ===== src/Options/Flags.antt =====
-- pkg/operator/options/options.go: AddFlags, with what Parse makes of the flags that it binds, and the
-- context. env.WithDefaultString, the environment, the parser of flags and context.Context are parameters.
use karpenter_provider_tke.Prelude.{◌≡◌, ◌↔◌, String, ◌==◌, Bool, false, Option, List, []}
use karpenter_provider_tke.Options.{
  Options, Parsed, parsed, Started, started, parse, with_default_float64,
}
use karpenter_provider_tke.Options.Accepted.{parse-started}

-- What AddFlags reads, and the parser: without arguments every flag keeps its default.
pub record Start (F : Type 0) : Type 0 where
  pub with_default_string : String → String → String
  pub lookup_env : String → Option String
  pub parse_float : String → Option F
  pub default_overhead : F
  pub is_negative : F → Bool
  pub parse_flags : Options F → List String → Parsed F
  pub parse_flags-nil : (o : Options F) → parse_flags o [] ≡ parsed o

-- A context that carries the options.
pub record Context (F : Type 0) : Type 1 where
  pub T : Type 0
  pub with_value : T → Options F → T
  pub value : T → Option (Options F)

module _ {F : Type 0} (context : Context F) where
  open context use {T, with_value, value}

  -- ToContext
  abbrev pub to_context : T → Options F → T
  to_context ctx opts = with_value ctx opts

  -- FromContext
  abbrev pub from_context : T → Option (Options F)
  from_context ctx = value ctx

module _ {F : Type 0} (s : Start F) where
  -- AddFlags, which sets each field to its default
  unfoldable pub add_flags : Options F → Options F
  add_flags o = record {
    region = s.with_default_string "REGION" "";
    cluster_id = s.with_default_string "CLUSTER_ID" "";
    secret_id = s.with_default_string "SECRET_ID" "";
    secret_key = s.with_default_string "SECRET_KEY" "";
    vm_memory_overhead_percent =
        with_default_float64 s.parse_float (s.lookup_env "VM_MEMORY_OVERHEAD_PERCENT")
          s.default_overhead;
  }

  -- Parse of the arguments, after AddFlags
  abbrev pub start : Options F → List String → Started F
  start o args = parse s.is_negative (s.parse_flags (add_flags o) args)

  -- Without arguments the program starts, with the options that AddFlags has set, exactly if the environment
  -- gives the four required fields a text that is not empty and an overhead that is not negative.
  pub start-started :
      (o : Options F)
      → (start o [] ≡ started (add_flags o)) ↔ (
          (s.is_negative (
              with_default_float64 s.parse_float
                (s.lookup_env "VM_MEMORY_OVERHEAD_PERCENT")
                s.default_overhead)
            ≡ false)
          × ((s.with_default_string "REGION" "" == "") ≡ false)
          × ((s.with_default_string "CLUSTER_ID" "" == "") ≡ false)
          × ((s.with_default_string "SECRET_ID" "" == "") ≡ false)
          × ((s.with_default_string "SECRET_KEY" "" == "") ≡ false))
  unfolding add_flags
  start-started o =
      let accepted = parse-started s.is_negative (s.parse_flags (add_flags o) []) (add_flags o) in
      (λ h. (accepted.0 h).1, λ valid. accepted.1 (s.parse_flags-nil (add_flags o), valid))
