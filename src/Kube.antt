-- ===== src/Kube.antt =====
-- The Kubernetes objects that the code reads and writes, with the fields that it uses, and the API
-- server as a parameter. What the server answers may depend on all that the program has asked it to
-- change so far (`History`, newest first), and is otherwise arbitrary: objects that others change,
-- conflicts and failures are all answers that it may give. A raw extension is its text.
use mathlib.Core.Path.{◌≡◌, refl, sym, ap, ◌∙◌}
use mathlib.Core.List.{append_assoc}
use karpenter_provider_tke.Prelude.{
  ℕ, String, Option, List, [], ◌∷◌, ◌++◌, All, All-append, All-mono, Dict, Result, none, some,
}
use karpenter_provider_tke.Scheduling.{ResourceList}
use karpenter_provider_tke.NativeNode.{MachineSpec}

pub record OwnerReference : Type 0 where
  pub kind : String
  pub name : String

-- capiv1beta1.Machine
pub record Machine : Type 0 where
  pub name : String
  pub labels : Dict String
  pub annotations : Dict String
  pub owners : List OwnerReference
  pub created : ℕ
  pub provider_id : Option String
  pub zone : String
  pub raw_spec : String
  pub failure_reason : Option String
  pub failure_message : Option String
  pub phase : Option String

-- karpenter's NodeClaim
pub record NodeClaim : Type 0 where
  pub name : String
  pub kind : String
  pub labels : Dict String
  pub annotations : Dict String
  pub created : ℕ
  pub deletion : Option ℕ
  pub provider_id : String
  pub capacity : ResourceList
  pub allocatable : ResourceList

-- What the program asks the API server to change.
pub data Write : Type 0 where
  delete_nodeclaim delete_machine : String → Write
  patch_nodeclaim_status : NodeClaim → Write
  patch_machine_status : Machine → Write
  create_machine : Machine → MachineSpec → Write

abbrev pub History : Type 0
History = List Write

pub record Kube : Type 0 where
  pub list_machines : History → Result (List Machine)
  pub list_machines_with : History → String → String → Result (List Machine)
  pub list_nodeclaims : History → Result (List NodeClaim)
  pub get_nodeclaim : History → String → Result NodeClaim
  pub write : History → Write → Result (Unit {0})

-- lo.FromPtr of a text
abbrev pub text_of : Option String → String
text_of none = ""
text_of (some s) = s

-- one write, with what the server answers
abbrev pub send : Kube → Write → History → Result (Unit {0}) × History
send kube w h = (kube.write h w, w ∷ h)

-- the kind that the controllers look for among the owners of a machine
abbrev pub nodeclaim_kind : String
nodeclaim_kind = "NodeClaim"

-- `later` adds to `earlier` only writes of a kind.
abbrev pub Adds : (Write → Type 0) → History → History → Type 0
Adds P earlier later = (new : History) × (later ≡ new ++ earlier) × All P new

pub Adds-refl : (P : Write → Type 0) (a : History) → Adds P a a
Adds-refl P a = ([], refl, tt)

pub Adds-trans : (P : Write → Type 0) (a b c : History) → Adds P a b → Adds P b c → Adds P a c
Adds-trans P a b c (new, e, all) (newer, f, every) = (
  newer ++ new,
  f ∙ ap (λ h. newer ++ h) e ∙ sym (append_assoc newer new a),
  All-append P newer new every all,
)

pub Adds-mono :
    (P Q : Write → Type 0) (a b : History) → ((w : Write) → P w → Q w) → Adds P a b → Adds Q a b
Adds-mono P Q a b weaken (new, e, all) = (new, e, All-mono P Q new weaken all)
