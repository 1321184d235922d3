-- ===== src/Machines/Creation/Arguments.antt =====
-- The loop of Create over the annotations of the NodeClaim, in the order in which the iteration over the
-- map meets them.
use karpenter_provider_tke.Prelude.{
  ◌≡◌, refl, ap, ◌∙◌, sym, String, ◌==◌, Bool, true, not, ◌&&◌, Option, none, some, List, [], ◌∷◌,
  ◌++◌, if◌then◌else◌, any_of, Bool-cases, inl, inr, Dict,
}
use mathlib.Core.List.{append_assoc, append-nil}
use karpenter_provider_tke.Labels
use karpenter_provider_tke.Strconv.{◌<>◌, split, second_of_two, without_spaces}
use karpenter_provider_tke.NativeNode.{HostAlias, GpuParams}

-- what the loop sets of the machine and of its provider spec
pub record Settings : Type 0 where
  pub kubelet_args : List String
  pub kernel_args : List String
  pub hosts : List HostAlias
  pub nameservers : List String
  pub host_name : String
  pub runtime_root_dir : String
  pub gpu_config : GpuParams

-- lo.Uniq, from the values that were met before on
unfoldable pub uniq_from : List String → List String → List String
uniq_from seen [] = []
uniq_from seen (x ∷ xs) =
    let rest = uniq_from (x ∷ seen) xs in if any_of (λ y. y == x) seen then rest else x ∷ rest

-- fmt.Sprintf("%s=%s", result[1], v), where the key has the prefix
abbrev pub append_argument : Option String → String → List String → List String
append_argument none v arguments = arguments
append_argument (some name) v arguments = arguments ++ (name <> "=" <> v) ∷ []

-- `if len(v) > 0`, under the key
abbrev pub text_if : Bool → String → String → String
text_if hit v old = if hit && not (v == "") then v else old

abbrev pub flag_if : Bool → String → Bool → Bool
flag_if hit v old = if hit && v == "true" then true else old

abbrev pub gpu_by : String → String → GpuParams → GpuParams
gpu_by k v g = record {
  driver = text_if (k == Labels.annotation_gpu_driver_key) v g.driver;
  cuda = text_if (k == Labels.annotation_gpu_cuda_key) v g.cuda;
  cudnn = text_if (k == Labels.annotation_gpu_cudnn_key) v g.cudnn;
  mig_enable = flag_if (k == Labels.annotation_gpu_mig_enable_key) v g.mig_enable;
  fabric = flag_if (k == Labels.annotation_fabric_key) v g.fabric;
}

abbrev pub nameservers_by : String → String → List String → List String
nameservers_by k v ns =
    if k == Labels.annotation_nameservers_key
    then uniq_from [] (ns ++ split b',' (without_spaces v))
    else ns

-- the end of a round, which an invalid IP address skips
unfoldable pub apply_rest : Bool → String → String → Settings → Settings
apply_rest has_gpu k v st = record {
  kubelet_args = st.kubelet_args;
  kernel_args = st.kernel_args;
  hosts = st.hosts;
  nameservers = nameservers_by k v st.nameservers;
  host_name = text_if (k == Labels.annotation_hostname_key) v st.host_name;
  runtime_root_dir = text_if (k == Labels.annotation_runtime_root_key) v st.runtime_root_dir;
  gpu_config = if has_gpu then gpu_by k v st.gpu_config else st.gpu_config;
}

abbrev pub host_alias : String → String → HostAlias
host_alias ip v = record { ip = ip; hostnames = split b',' (without_spaces v) }

append_after {ℓ} :
    {A : Type ℓ} (all start next added later : List A)
    → all ≡ next ++ later
    → next ≡ start ++ added
    → all ≡ start ++ (added ++ later)
append_after all start next added later e f =
    e ∙ ap (λ xs. xs ++ later) f ∙ append_assoc start added later

-- `is_ip` is the test of net.ParseIP, `has_gpu` whether the instance type has the GPU resource.
module _ (is_ip : String → Bool) (has_gpu : Bool) where
  unfoldable pub apply_host : Option String → String → String → Settings → Settings
  apply_host none k v st = apply_rest has_gpu k v st
  apply_host (some ip) k v st =
      if not (is_ip ip)
      then st
      else apply_rest has_gpu k v (record st { hosts = st.hosts ++ host_alias ip v ∷ [] })

  -- a round of the loop
  unfoldable pub apply_annotation : String × String → Settings → Settings
  apply_annotation (k, v) st =
      apply_host (second_of_two Labels.annotation_hosts_prefix k) k v (record st {
        kubelet_args =
            append_argument (second_of_two Labels.annotation_kubelet_arg_prefix k) v
              st.kubelet_args;
        kernel_args =
            append_argument (second_of_two Labels.annotation_kernel_arg_prefix k) v st.kernel_args;
      })

  unfoldable pub apply_annotations : Dict String → Settings → Settings
  apply_annotations [] st = st
  apply_annotations (e ∷ es) st = apply_annotations es (apply_annotation e st)

  -- the arguments that the annotations with a prefix give, in their order
  unfoldable pub arguments_with : String → Dict String → List String
  arguments_with prefix [] = []
  arguments_with prefix ((k, v) ∷ es) =
      append_argument (second_of_two prefix k) v [] ++ arguments_with prefix es

  abbrev pub new_host : Option String → String → List HostAlias
  new_host none v = []
  new_host (some ip) v = if is_ip ip then host_alias ip v ∷ [] else []

  -- the hosts whose address is one
  unfoldable pub hosts_with : Dict String → List HostAlias
  hosts_with [] = []
  hosts_with ((k, v) ∷ es) =
      new_host (second_of_two Labels.annotation_hosts_prefix k) v ++ hosts_with es

  append_argument-append :
      (o : Option String) (v : String) (xs : List String)
      → append_argument o v xs ≡ xs ++ append_argument o v []
  append_argument-append none v xs = sym (append-nil xs)
  append_argument-append (some name) v xs = refl

  -- what a round adds, from the settings that the arguments are already added to
  abbrev AddsHost : Option String → String → Settings → Settings → Type 0
  AddsHost o v st after =
      (after.kubelet_args ≡ st.kubelet_args)
      × (after.kernel_args ≡ st.kernel_args)
      × (after.hosts ≡ st.hosts ++ new_host o v)

  apply_host-AddsHost :
      (o : Option String) (k v : String) (st : Settings) → AddsHost o v st (apply_host o k v st)
  unfolding apply_host apply_rest
  apply_host-AddsHost none k v st = (refl, refl, sym (append-nil st.hosts))
  apply_host-AddsHost (some ip) k v st = elim (Bool-cases (is_ip ip)) [
    | inl valid ↦ rw (apply_host, valid) (refl, refl, refl)
    | inr invalid ↦ rw (apply_host, invalid) (refl, refl, sym (append-nil st.hosts))
  ]

  -- The loop over the annotations adds, in the order of the iteration, one kubelet or kernel
  -- argument for each annotation whose key has the prefix once, and one host for each with the
  -- host prefix whose rest is an IP address; an invalid address drops no argument.
  pub apply_annotations-arguments :
      (es : Dict String) (st : Settings)
      → ((apply_annotations es st).kubelet_args
          ≡ st.kubelet_args ++ arguments_with Labels.annotation_kubelet_arg_prefix es)
        × ((apply_annotations es st).kernel_args
            ≡ st.kernel_args ++ arguments_with Labels.annotation_kernel_arg_prefix es)
        × ((apply_annotations es st).hosts ≡ st.hosts ++ hosts_with es)
  unfolding apply_annotations apply_annotation arguments_with hosts_with
  apply_annotations-arguments [] st = (sym (append-nil _), sym (append-nil _), sym (append-nil _))
  apply_annotations-arguments ((k, v) ∷ es) st =
      let (kubelet, kernel, hosts) = apply_annotations-arguments es (apply_annotation (k, v) st) in
      let (a, b, c) =
        apply_host-AddsHost (second_of_two Labels.annotation_hosts_prefix k) k v (record st {
          kubelet_args =
              append_argument (second_of_two Labels.annotation_kubelet_arg_prefix k) v
                st.kubelet_args;
          kernel_args =
              append_argument (second_of_two Labels.annotation_kernel_arg_prefix k) v
                st.kernel_args;
        }) in
      (
        append_after _ st.kubelet_args _ _ _ kubelet
            (a ∙ append_argument-append _ v st.kubelet_args),
        append_after _ st.kernel_args _ _ _ kernel (b ∙ append_argument-append _ v st.kernel_args),
        append_after _ st.hosts _ _ _ hosts c,
      )
