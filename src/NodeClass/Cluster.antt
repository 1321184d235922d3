-- ===== src/NodeClass/Cluster.antt =====
-- A node class in the API server, the NodeClaims that use it, and the two node class controllers. Every
-- write is carried out, and a controller reads the object as it stands.
pub mod Held
use mathlib.Core.List.{Memᴰ}
use mathlib.Core.Option.{some-injective}
use karpenter_provider_tke.Prelude.{
  ℕ, ◌≡◌, refl, sym, ap, subst, ◌∙◌, arith, String, ◌==◌, Bool, true, false, ◌||◌, List, [], ◌∷◌,
  ◌++◌, Option, none, some, any_of, if◌then◌else◌, is_empty, Result, ok, err, Bool-cases,
  Result-cases, inl, inr, eq_refl,
}
use karpenter_provider_tke.Labels
use karpenter_provider_tke.NodeClass.{
  NodeClass, Cloud, reconcile_subnets, reconcile_security_groups, reconcile_ssh_keys,
  reconcile_readiness, reconcile_status, contains_finalizer, Action, publish_waiting, update,
  finalize, by_deletion, reconcile_termination,
}
use karpenter_provider_tke.NodeClass.Status.{
  Server, Patch, patch_object, patch_status, add_finalizer, reconcile_stored, reconcile,
}

pub record World : Type 0 where
  pub object : Option NodeClass
  pub claims : List String

-- the API server: an object that is being deleted goes when its last finalizer goes
abbrev pub stand : Option ℕ → List String → NodeClass → Option NodeClass
stand (some t) [] nc = none
stand d fs nc = some nc

abbrev pub stored : NodeClass → Option NodeClass
stored nc = stand nc.deletion nc.finalizers nc

abbrev pub patched : List Patch → NodeClass → NodeClass
patched [] nc = nc
patched (patch_object new ∷ ps) nc = patched ps new
patched (patch_status new ∷ ps) nc = patched ps new

abbrev pub acted : List Action → NodeClass → Option NodeClass
acted [] nc = some nc
acted (publish_waiting names ∷ as_before) nc = acted as_before nc
acted (update new ∷ rest) nc = stored new

-- what the two controllers call, where every write is carried out
abbrev pub accepting : (NodeClass → NodeClass → Bool) → (List ℕ → ℕ) → Server
accepting equal min = record {
  patch = λ old new. ok new;
  status_patch = λ old new. ok tt;
  equal = equal;
  min = min;
}

module _ (cloud : Cloud) (equal : NodeClass → NodeClass → Bool) (min : List ℕ → ℕ) where
  -- the object after a run of the status controller
  abbrev pub status_run : NodeClass → NodeClass
  status_run nc = patched (reconcile cloud (accepting equal min) nc).1 nc

  -- the object after a run of the termination controller
  abbrev pub termination_run : List String → NodeClass → Option NodeClass
  termination_run claims nc = acted (reconcile_termination (λ n. ok claims) (λ n. ok tt) nc).1 nc

  -- A step, in which the NodeClaim `user` stays.
  pub data Step (user : String) : World → World → Type 0 where
    status :
        (nc : NodeClass) (claims : List String)
        → Step user
            (record { object = some nc; claims = claims })
            (record { object = some (status_run nc); claims = claims })
    terminate :
        (nc : NodeClass) (claims : List String)
        → Step user
            (record { object = some nc; claims = claims })
            (record { object = termination_run claims nc; claims = claims })
    delete :
        (nc : NodeClass) (time : ℕ) (claims : List String)
        → Step user
            (record { object = some nc; claims = claims })
            (record { object = stored (record nc { deletion = some time }); claims = claims })
    use_by :
        (o : Option NodeClass) (before after : List String)
        → Memᴰ user after
        → Step user (record { object = o; claims = before }) (record { object = o; claims = after })

  pub data Steps (user : String) (w : World) : World → Type 0 where
    here : Steps user w w
    next : {v u : World} → Steps user w v → Step user v u → Steps user w u
