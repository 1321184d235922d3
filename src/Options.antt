-- ===== src/Options.antt =====
-- pkg/operator/options: the start options, Validate and Parse, and pkg/util/util.go, whose
-- WithDefaultFloat64 gives the overhead its default and whose PrettySlice prints the event of
-- pkg/controllers/nodeclass/termination/events.go. Float64, strconv.ParseFloat, the parser of flags and
-- the environment are parameters.
pub mod Accepted
pub mod Flags
pub mod Slices
use karpenter_provider_tke.Prelude.{
  ℕ, suc, ◌-◌, ◌+◌, String, ◌==◌, Bool, true, false, Option, none, some, List, [], ◌∷◌, ◌++◌,
  length, if◌then◌else◌, ltb, Error, plain, Result, ok, err,
}
use karpenter_provider_tke.Strconv.{◌<>◌, itoa_ℕ}

-- Options, over the type of floats
pub record Options (F : Type 0) : Type 0 where
  pub region : String
  pub cluster_id : String
  pub secret_id : String
  pub secret_key : String
  pub vm_memory_overhead_percent : F

-- What flag.FlagSet.Parse does: it asks for the help text, it fails, or it sets the options.
pub data Parsed (F : Type 0) : Type 0 where
  help : Parsed F
  failed : String → Parsed F
  parsed : Options F → Parsed F

-- The end of Parse: the program exits with code 0, or it goes on with the errors or without.
pub data Started (F : Type 0) : Type 0 where
  exits : Started F
  refused : List Error → Started F
  started : Options F → Started F

-- the error that is not nil, as multierr.Combine takes it
abbrev pub error_of : Result (Unit {0}) → List Error
error_of (ok u) = []
error_of (err e) = e ∷ []

module _ {F : Type 0} (is_negative : F → Bool) where
  -- validateRequiredFields
  unfoldable pub validate_required_fields : Options F → Result (Unit {0})
  validate_required_fields o =
      if o.region == ""
      then err (plain "missing field, region")
      else if o.cluster_id == ""
      then err (plain "missing field, cluster-id")
      else if o.secret_id == ""
      then err (plain "missing field, secret-id")
      else if o.secret_key == ""
      then err (plain "missing field, secret-key")
      else ok tt

  -- validateVMMemoryOverheadPercent
  unfoldable pub validate_vm_memory_overhead_percent : Options F → Result (Unit {0})
  validate_vm_memory_overhead_percent o =
      if is_negative o.vm_memory_overhead_percent
      then err (plain "vm-memory-overhead-percent cannot be negative")
      else ok tt

  -- Validate
  unfoldable pub validate : Options F → List Error
  validate o =
      error_of (validate_vm_memory_overhead_percent o) ++ error_of (validate_required_fields o)

  abbrev pub checked : Options F → List Error → Started F
  checked o [] = started o
  checked o (e ∷ es) = refused (e ∷ es)

  -- Parse
  unfoldable pub parse : Parsed F → Started F
  parse help = exits
  parse (failed text) = refused (plain text ∷ [])
  parse (parsed o) = checked o (validate o)

-- WithDefaultFloat64
unfoldable pub with_default_float64 : {F : Type 0} → (String → Option F) → Option String → F → F
with_default_float64 parse_float none default = default
with_default_float64 parse_float (some val) default = elim (parse_float val) [
  | none ↦ default
  | some f ↦ f
]

-- the loop of PrettySlice, from the index on, over a slice of a length
unfoldable pub pretty_from : ℕ → ℕ → ℕ → List String → String
pretty_from size max_items i [] = ""
pretty_from size max_items i (elem ∷ rest) =
    let later = pretty_from size max_items (i + 1) rest in
    if ltb max_items (i + 1)
    then " and " <> itoa_ℕ (size - i) <> " other(s)"
    else (if ltb 0 i then ", " else "") <> elem <> later

-- PrettySlice, of texts and a number of items that is not negative
unfoldable pub pretty_slice : List String → ℕ → String
pretty_slice s max_items = pretty_from (length s) max_items 0 s

-- the message of WaitingOnNodeClaimTerminationEvent
unfoldable pub waiting_message : List String → String
waiting_message names = "Waiting on NodeClaim termination for " <> pretty_slice names 5
