-- ===== src/ProviderId/Convergence.antt =====
-- Provider IDs stay coherent, whatever the order of the steps.
use karpenter_provider_tke.Prelude.{
  ◌≡◌, refl, sym, subst, ap, ◌∙◌, ◌==◌, eq_iff, true, some, [], ◌∷◌, ◌⊎◌, inl, inr, text_at,
  Bool-cases, Result-cases, arith,
}
use karpenter_provider_tke.Labels
use karpenter_provider_tke.Kube.{
  Machine, NodeClaim, Write, patch_nodeclaim_status, patch_machine_status, History, text_of,
}
use karpenter_provider_tke.ProviderId.{
  with_provider_id, initialized, wants_nodeclaim, wants_machine, id_or_placeholder, nodeclaim_name,
  is_marked, patch_nodeclaim, reconcile_nodeclaim, patch_machine, patch_both, reconcile_machine,
}
use karpenter_provider_tke.ProviderId.Cluster.{
  Cluster, Outcomes, server, apply, Step, on_nodeclaim, on_machine, started, Steps, done, then_step,
  IsCoherent, some-text_of, ne-blank,
}

-- what a step of ControllerMachine may make of the cluster
abbrev Marks : Cluster → Cluster → Type 0
Marks s t =
    (t ≡ s)
    ⊎ ((t.claim.provider_id ≡ text_of s.machine.provider_id)
        × (t.machine.provider_id ≡ s.machine.provider_id))

-- A patch of a machine changes neither the NodeClaim's ID nor the machine's.
marking-Marks :
    (o : Outcomes) (s : Cluster) (m : Machine) (h : History)
    → (apply o h s).claim.provider_id ≡ text_of s.machine.provider_id
    → (apply o h s).machine.provider_id ≡ s.machine.provider_id
    → Marks s (apply o (patch_machine_status m ∷ h) s)
unfolding apply
marking-Marks o s m h id same = elim (Bool-cases (o.carries_out h (patch_machine_status m))) [
  | inr dropped ↦ rw (apply, dropped) (inr (id, same))
  | inl taken ↦ elim (Bool-cases o.writes_labels) [
    | inl labelled ↦ rw (apply, taken, labelled) (inr (id, same))
    | inr bare ↦ rw (apply, taken, bare) (inr (id, same))
  ]
]

patch_machine-Marks :
    (o : Outcomes) (s : Cluster) (h : History)
    → (apply o h s).claim.provider_id ≡ text_of s.machine.provider_id
    → (apply o h s).machine.provider_id ≡ s.machine.provider_id
    → Marks s (apply o (patch_machine (server o s) s.machine h).1 s)
unfolding patch_machine
patch_machine-Marks o s h id same = elim (Bool-cases (is_marked s.machine)) [
  | inl marked ↦ rw (marked, patch_machine) (inr (id, same))
  | inr plain ↦ rw (plain, patch_machine) (marking-Marks o s (initialized s.machine) h id same)
]

patch_both-Marks :
    (o : Outcomes) (s : Cluster)
    → Marks s (apply o (patch_both (server o s) s.claim s.machine []).1 s)
unfolding patch_both apply
patch_both-Marks o s =
    let nc : NodeClaim = with_provider_id (text_of s.machine.provider_id) s.claim in
    let w : Write = patch_nodeclaim_status nc in
    elim (Bool-cases (text_of s.machine.provider_id == s.claim.provider_id)) [
      | inl same ↦
          rw (same, patch_both) (patch_machine-Marks o s [] (sym ((eq_iff _ _).0 same)) refl)
      | inr other ↦ elim (Result-cases (o.answer [] w)) [
        | inl (u, sent) ↦
            let taken = o.carries_out-ok [] w sent in
            rw (other, patch_both, sent)
              (patch_machine-Marks o s (w ∷ []) (rw (apply, taken) refl) (rw (apply, taken) refl))
        | inr (e, failed) ↦ elim (Bool-cases (o.carries_out [] w)) [
          | inl taken ↦ rw (other, patch_both, failed, apply, taken) (inr (refl, refl))
          | inr dropped ↦ rw (other, patch_both, failed, apply, dropped) (inl refl)
        ]
      ]
    ]

reconcile_machine-Marks :
    (o : Outcomes) (s : Cluster)
    → Marks s (apply o (reconcile_machine (server o s) s.machine []).1 s)
unfolding reconcile_machine apply
reconcile_machine-Marks o s = elim (Bool-cases (nodeclaim_name s.machine.owners == "")) [
  | inl orphan ↦ rw (orphan, reconcile_machine) (inl refl)
  | inr owned ↦ elim (Bool-cases (s.claim.name == nodeclaim_name s.machine.owners)) [
    | inl its ↦ rw (owned, its, reconcile_machine) (patch_both-Marks o s)
    | inr others ↦ rw (owned, others, reconcile_machine) (inl refl)
  ]
]

on_machine-IsCoherent :
    (s t : Cluster) → wants_machine s.machine ≡ true → Marks s t → IsCoherent s → IsCoherent t
unfolding wants_machine
on_machine-IsCoherent s t wanted (inl same) v = subst IsCoherent (sym same) v
on_machine-IsCoherent s t wanted (inr (claim, machine)) v =
    let given = ne-blank (text_of s.machine.provider_id) (ground (arith, wanted)) in
    let own : t.machine.provider_id ≡ some t.claim.provider_id =
      machine ∙ some-text_of s.machine.provider_id given ∙ ap some (sym claim) in
    (inr (inr own), λ marked. (own, λ blank. given (sym claim ∙ blank)))

patch_nodeclaim-IsCoherent :
    (o : Outcomes) (s : Cluster)
    → s.claim.provider_id ≡ ""
    → IsCoherent s
    → IsCoherent (
        apply o
          (patch_nodeclaim
            (server o s)
            s.claim
            (with_provider_id (id_or_placeholder s.machine) s.claim)
            []).1
          s)
unfolding patch_nodeclaim apply id_or_placeholder
patch_nodeclaim-IsCoherent o s blank v =
    let w : Write =
      patch_nodeclaim_status (with_provider_id (id_or_placeholder s.machine) s.claim) in
    elim (Bool-cases (id_or_placeholder s.machine == s.claim.provider_id)) [
      | inl same ↦ rw (same, patch_nodeclaim) v
      | inr other ↦ elim (Bool-cases (o.carries_out [] w)) [
        | inr dropped ↦ rw (other, patch_nodeclaim, apply, dropped) v
        | inl taken ↦
            rw (other, patch_nodeclaim, apply, taken)
              (elim (Bool-cases (text_of s.machine.provider_id == "")) [
                | inl waiting ↦ (
                  inr (inl (rw (waiting, id_or_placeholder) refl)),
                  λ marked. absurd ((v.1 marked).1 blank),
                )
                | inr given ↦
                    let own : s.machine.provider_id ≡ some (id_or_placeholder s.machine) =
                      rw (id_or_placeholder, given)
                        (some-text_of s.machine.provider_id (ne-blank _ given)) in
                    (inr (inr own), λ marked. absurd ((v.1 marked).1 blank))
              ])
      ]
    ]

reconcile_nodeclaim-IsCoherent :
    (o : Outcomes) (s : Cluster)
    → s.claim.provider_id ≡ ""
    → IsCoherent s
    → IsCoherent (apply o (reconcile_nodeclaim (server o s) s.claim []).1 s)
unfolding reconcile_nodeclaim apply
reconcile_nodeclaim-IsCoherent o s blank v =
    let test = (eq_iff s.claim.provider_id "").1 blank in
    elim (Bool-cases (text_at Labels.label_node_claim s.machine.labels == s.claim.name)) [
      | inl its ↦ rw (test, its, reconcile_nodeclaim) (patch_nodeclaim-IsCoherent o s blank v)
      | inr others ↦ rw (test, others, reconcile_nodeclaim) v
    ]

Step-IsCoherent : (s t : Cluster) → Step s t → IsCoherent s → IsCoherent t
Step-IsCoherent _ _ (on_nodeclaim s o wanted) v =
    reconcile_nodeclaim-IsCoherent o s ((eq_iff _ _).0 (unfold wants_nodeclaim in wanted)) v
Step-IsCoherent _ _ (on_machine s o wanted) v =
    on_machine-IsCoherent s _ wanted (reconcile_machine-Marks o s) v
Step-IsCoherent _ _ (started s id waiting given) (place, own) = (
  elim place [
    | inl blank ↦ inl blank
    | inr (inl placeholder) ↦ inr (inl placeholder)
    | inr (inr same) ↦ cc (waiting, same)
  ],
  λ marked. cc (waiting, (own marked).0),
)

-- In a cluster of one NodeClaim without ID and one unmarked machine, after any steps of the cloud
-- and of the two provider ID controllers, which run one at a time and read the cluster as it is,
-- and whichever of their writes the server carries out or reports as failed, as long as it carries
-- out those it reports as done, the NodeClaim has no ID, the machine's placeholder or the
-- machine's ID; and if the machine is marked, the NodeClaim has the machine's ID, which is not
-- empty.
pub Steps-IsCoherent :
    (s t : Cluster)
    → s.claim.provider_id ≡ ""
    → text_at Labels.label_provider_id_initialized s.machine.labels ≡ ""
    → Steps s t
    → IsCoherent t
Steps-IsCoherent _ _ blank unmarked (done s) = (inl blank, λ marked. absurd (marked unmarked))
Steps-IsCoherent _ _ blank unmarked (then_step s t u before last) =
    Step-IsCoherent t u last (Steps-IsCoherent s t blank unmarked before)
