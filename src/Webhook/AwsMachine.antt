-- ===== src/Webhook/AwsMachine.antt =====
-- internal/webhook/v1beta2/awsmachine_webhook.go: at the creation of an AWSMachine that opts in, an
-- interface is reserved by a claim and written into the machine.
pub mod Gate
pub mod Outcome
pub mod Policy
pub mod Again
pub mod Denials
use capa_eni_controller.Prelude.{
  String, Bool, true, false, not, ◌&&◌, ◌||◌, Option, none, some, List, [], ◌∷◌, ◌==◌,
  if◌then◌else◌,
}
use capa_eni_controller.Prelude.Lists.{is_empty}
use capa_eni_controller.Api.Constants.{
  allocate_from_pool_annotation, capi_paused_annotation, allocator_paused_annotation,
  allocation_result_annotation, allocation_result_allocated,
}
use capa_eni_controller.Api.Meta.{AwsMachine, Cluster, AwsCluster, find, get, insert, made}
use capa_eni_controller.Api.Claim.{EniClaim}
use capa_eni_controller.Api.Pool.{EniPool}
use capa_eni_controller.Kube.Prog.{
  call, ret, no_cluster_name_label, no_aws_cluster, get_cluster, get_aws_cluster,
}
use capa_eni_controller.Kube.Go.{Go, pure, fail, ◌>>=◌, wrap}
use capa_eni_controller.Kube.Platform.{Platform}
use capa_eni_controller.Allocation.{find_pool, resolve_interface_key, reserve}

-- Whether the defaulter has a client: it has none only in isolated unit tests.
pub record AwsMachineCustomDefaulter : Type 0 where
  pub client : Bool

-- admission.Request, with its optional DryRun.
pub record AdmissionRequest : Type 0 where
  pub dry_run : Option Bool

-- What admission.RequestFromContext finds, `none` for its error.
pub record Context : Type 0 where
  pub request : Option AdmissionRequest

abbrev pub or_false : Option Bool → Bool
or_false none = false
or_false (some b) = b

unfoldable pub is_dry_run : Context → Bool
is_dry_run ctx = elim ctx.request [ none ↦ false | some r ↦ or_false r.dry_run ]

-- What is written where the defaulter has no client.
unfoldable pub paused : AwsMachine → AwsMachine
paused obj = record obj {
  annotations = some (
      insert allocator_paused_annotation "true"
        (insert capi_paused_annotation "" (made obj.annotations)));
}

-- What is written after a claim.
unfoldable pub allocated : AwsMachine → EniClaim → AwsMachine
allocated obj claim = record obj {
  network_interfaces = claim.spec.eni_id ∷ [];
  annotations =
      some (insert allocation_result_annotation allocation_result_allocated (made obj.annotations));
}

module _ (platform : Platform) where
  unfoldable pub resolve_cluster_network : AwsMachine → Go (String × String)
  resolve_cluster_network obj =
      let cluster_name = get platform.cluster_name_label obj.labels in
      if cluster_name == "" then fail no_cluster_name_label else do
        cluster ←
            call (get_cluster (record { namespace = obj.namespace; name = cluster_name }))
              (λ r. ret (wrap "get Cluster" r))
        let ref = cluster.infrastructure_ref
        if not (platform.is_defined ref) || not (ref.kind == "AWSCluster")
            then fail no_aws_cluster
            else do
              aws_cluster ←
                  call (get_aws_cluster (record { namespace = obj.namespace; name = ref.name }))
                    (λ r. ret (wrap "get AWSCluster" r))
              pure (aws_cluster.region, aws_cluster.vpc_id)

  -- The webhook's claimInterface goes straight to the creation of a claim.
  unfoldable pub claim_interface : AwsMachine → EniPool → String → Go (Option EniClaim)
  claim_interface obj pool interface_key = reserve obj pool interface_key

  -- The end of Default; no claim leaves the networking to CAPA.
  unfoldable pub conclude : AwsMachine → Option EniClaim → Go AwsMachine
  unfolding allocated
  conclude obj none = pure obj
  conclude obj (some claim) = pure (allocated obj claim)

  -- Default from the search for a pool on.
  unfoldable pub allocate_from : AwsMachine → Option EniPool → Go AwsMachine
  unfolding conclude claim_interface
  allocate_from obj none = pure obj
  allocate_from obj (some pool) = do
    interface_key ← resolve_interface_key platform obj
    claim ← claim_interface obj pool interface_key
    conclude obj claim

  -- The part of Default that talks to the server.
  unfoldable pub allocate : AwsMachine → Go AwsMachine
  unfolding allocate_from
  allocate obj = do
    network ← resolve_cluster_network obj
    let (region, vpc_id) = network
    pool ← find_pool region vpc_id
    allocate_from obj pool

  -- Default: the object as the webhook leaves it, or the error by which it denies the request.
  unfoldable pub default : AwsMachineCustomDefaulter → Context → AwsMachine → Go AwsMachine
  unfolding is_dry_run paused
  default d ctx obj =
      if not (get allocate_from_pool_annotation obj.annotations == "true")
        || not (is_empty obj.network_interfaces)
      then pure obj
      else elim (find capi_paused_annotation obj.annotations) [
        | some _ ↦ pure obj
        | none ↦
            if not d.client
            then pure (paused obj)
            else if is_dry_run ctx
            then pure obj
            else allocate obj
      ]
