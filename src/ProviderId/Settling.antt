-- ===== src/ProviderId/Settling.antt =====
-- One run of ControllerMachine settles a NodeClaim's provider ID.
use karpenter_provider_tke.Prelude.{ok, ◌≡◌, true, false}
use karpenter_provider_tke.Labels
use karpenter_provider_tke.Kube.{Write, History, text_of}
use karpenter_provider_tke.ProviderId.{wants_machine}
use karpenter_provider_tke.ProviderId.Cluster.{Cluster, Outcomes}

-- Every write is carried out and answered without an error, and a patch of a machine's status writes the
-- machine's labels.
abbrev pub CarriesOut : Outcomes → Type 0
CarriesOut o = ((h : History) (w : Write) → o.answer h w ≡ ok tt) × (o.writes_labels ≡ true)

-- the NodeClaim has the machine's ID, and the controller does not ask for the machine
abbrev IsSettled : Cluster → Cluster → Type 0
IsSettled s t =
    (t.claim.provider_id ≡ text_of s.machine.provider_id) × (wants_machine t.machine ≡ false)
