-- ===== src/ProviderId/Cluster.antt =====
-- A cluster of one NodeClaim and one machine, and the steps that the cloud and the two registered
-- controllers of provider IDs take on it.
use karpenter_provider_tke.Prelude.{
  ◌≡◌, ◌≢◌, refl, String, ◌==◌, eq_iff, true, false, Bool, Result, Option, none, some, [], ◌∷◌, ◌⊎◌,
  if◌then◌else◌, text_at, ok, err, not_found, arith,
}
use karpenter_provider_tke.Labels
use karpenter_provider_tke.Strconv.{◌<>◌}
use karpenter_provider_tke.Kube.{
  Machine, NodeClaim, delete_nodeclaim, delete_machine, patch_nodeclaim_status,
  patch_machine_status, create_machine, Write, History, Kube, text_of,
}
use karpenter_provider_tke.ProviderId.{
  wants_nodeclaim, wants_machine, reconcile_nodeclaim, reconcile_machine,
}

pub record Cluster : Type 0 where
  pub claim : NodeClaim
  pub machine : Machine

-- How the API server answers the writes of one run, and which of them it carries out: all that it answers
-- without an error, and perhaps others, whose answer is lost. A patch of a machine's status may write the
-- machine's labels or leave them.
pub record Outcomes : Type 0 where
  pub answer : History → Write → Result (Unit {0})
  pub carries_out : History → Write → Bool
  pub carries_out-ok : (h : History) (w : Write) → answer h w ≡ ok tt → carries_out h w ≡ true
  pub writes_labels : Bool

-- An API server that holds the cluster; what a controller reads of it is current.
abbrev pub server : Outcomes → Cluster → Kube
server o s = record {
  list_machines = λ h. ok (s.machine ∷ []);
  list_machines_with =
      λ h key value. ok (if text_at key s.machine.labels == value then s.machine ∷ [] else []);
  list_nodeclaims = λ h. ok (s.claim ∷ []);
  get_nodeclaim = λ h name. if s.claim.name == name then ok s.claim else err not_found;
  write = o.answer;
}

-- What a write that is carried out changes: a patch of a status holds the fields that differ from what was
-- read, which are the provider ID of a NodeClaim and the labels of a machine.
abbrev pub change : Bool → Write → Cluster → Cluster
change writes_labels (patch_nodeclaim_status nc) s = record s {
  claim = record s.claim { provider_id = nc.provider_id };
}
change writes_labels (patch_machine_status m) s =
    if writes_labels then record s { machine = record s.machine { labels = m.labels } } else s
change writes_labels (create_machine m spec) s = s
change writes_labels (delete_nodeclaim n) s = s
change writes_labels (delete_machine n) s = s

-- what the writes, newest first, leave of the cluster
unfoldable pub apply : Outcomes → History → Cluster → Cluster
apply o [] s = s
apply o (w ∷ h) s =
    let before = apply o h s in
    if o.carries_out h w then change o.writes_labels w before else before

-- The controllers run on the events that they ask for, one run at a time and each with outcomes of its own;
-- the cloud gives a machine an ID once.
pub data Step : Cluster → Cluster → Type 0 where
  on_nodeclaim :
      (s : Cluster) (o : Outcomes)
      → wants_nodeclaim s.claim ≡ true
      → Step s (apply o (reconcile_nodeclaim (server o s) s.claim []).1 s)
  on_machine :
      (s : Cluster) (o : Outcomes)
      → wants_machine s.machine ≡ true
      → Step s (apply o (reconcile_machine (server o s) s.machine []).1 s)
  started :
      (s : Cluster) (id : String)
      → s.machine.provider_id ≡ none
      → id ≢ ""
      → Step s (record s { machine = record s.machine { provider_id = some id } })

pub data Steps : Cluster → Cluster → Type 0 where
  done : (s : Cluster) → Steps s s
  then_step : (s t u : Cluster) → Steps s t → Step t u → Steps s u

-- The NodeClaim has no ID, the placeholder of its machine, or its machine's ID; and the machine's ID
-- once the machine is marked.
abbrev pub IsCoherent : Cluster → Type 0
IsCoherent s =
    ((s.claim.provider_id ≡ "")
      ⊎ (s.claim.provider_id ≡ "placeholder-" <> s.machine.name)
      ⊎ (s.machine.provider_id ≡ some s.claim.provider_id))
    × (text_at Labels.label_provider_id_initialized s.machine.labels ≢ ""
        → (s.machine.provider_id ≡ some s.claim.provider_id) × (s.claim.provider_id ≢ ""))

pub some-text_of : (o : Option String) → text_of o ≢ "" → o ≡ some (text_of o)
some-text_of none h = absurd (h refl)
some-text_of (some s) h = refl

pub ne-blank : (s : String) → s == "" ≡ false → s ≢ ""
ne-blank s h e = ground (arith, h, (eq_iff s "").1 e)
