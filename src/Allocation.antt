-- ===== src/Allocation.antt =====
-- How an interface is chosen and reserved: findPool, resolveInterfaceKey and the common part of
-- claimInterface, which stand with the same text in internal/webhook/v1beta2/awsmachine_webhook.go
-- and internal/controller/awsmachine_controller.go.
pub mod Order
pub mod Pools
pub mod Reserve
pub mod Selection
pub mod Requests
pub mod Refusals
pub mod InPlace
use capa_eni_controller.Prelude.{
  String, Bool, true, false, not, ◌&&◌, Option, none, some, List, [], ◌∷◌, ◌==◌, if◌then◌else◌,
}
use capa_eni_controller.Prelude.Lists.{filter, is_empty}
use capa_eni_controller.Api.Constants.{interface_key_annotation, claim_finalizer}
use capa_eni_controller.Api.Meta.{NamespacedName, AwsMachine, OwnerReference, get}
use capa_eni_controller.Api.Claim.{EniClaim}
use capa_eni_controller.Api.Pool.{EniReference, EniPool}
use capa_eni_controller.Kube.Prog.{
  Prog, ret, call, Result, ok, err, ApiError, already_exists, Error, api, multiple_pools,
  no_interface_with_key, get_machine, list_pools, create_claim,
}
use capa_eni_controller.Kube.Go.{Go, pure, fail, ◌>>=◌, plain, wrap}
use capa_eni_controller.Kube.Platform.{Platform}
use capa_eni_controller.Netip.{parse_addr, compare_addr, text_lt, is_lt}
use capa_eni_controller.Sort.{sort_slice}

-- The loop of findPool: `match` is the pool found so far.
unfoldable pub match_pool :
    String → String → List EniPool → Option EniPool → Result Error (Option EniPool)
match_pool region vpc_id [] found = ok found
match_pool region vpc_id (p ∷ items) found =
    let later = match_pool region vpc_id items found in
    let first = match_pool region vpc_id items (some p) in
    if p.spec.region == region && p.spec.vpc_id == vpc_id
    then (elim found [ some q ↦ err (multiple_pools region vpc_id) | none ↦ first ])
    else later

unfoldable pub find_pool : String → String → Go (Option EniPool)
unfolding match_pool
find_pool region vpc_id = do
  items ← call list_pools (λ r. ret (plain r))
  ret (match_pool region vpc_id items none)

module _ (platform : Platform) where
  -- The test on an owner reference; a version that does not parse fails it.
  unfoldable pub is_machine_owner : OwnerReference → Bool
  is_machine_owner owner = elim (platform.parse_group_version owner.api_version) [
    | none ↦ false
    | some group ↦ owner.kind == "Machine" && group == platform.cluster_api_group
  ]

  unfoldable pub owner_interface_key : String → List OwnerReference → Go String
  unfolding is_machine_owner
  owner_interface_key namespace [] = pure ""
  owner_interface_key namespace (owner ∷ owners) =
      let rest = owner_interface_key namespace owners in
      if is_machine_owner owner
      then (do
        machine ←
            call (get_machine (record { namespace = namespace; name = owner.name }))
              (λ r. ret (wrap "get owner Machine for interface key" r))
        pure (get interface_key_annotation machine.annotations))
      else rest

  unfoldable pub resolve_interface_key : AwsMachine → Go String
  unfolding owner_interface_key
  resolve_interface_key obj =
      let key = get interface_key_annotation obj.annotations in
      if not (key == "") then pure key else owner_interface_key obj.namespace obj.owner_references

-- The comparison given to sort.Slice.
unfoldable pub private_ip_lt : EniReference → EniReference → Bool
private_ip_lt i j = elim (parse_addr i.private_ip) [
  | none ↦ text_lt i.private_ip j.private_ip
  | some left ↦ elim (parse_addr j.private_ip) [
    | none ↦ text_lt i.private_ip j.private_ip
    | some right ↦ is_lt (compare_addr left right)
  ]
]

unfoldable pub new_claim : AwsMachine → EniPool → EniReference → EniClaim
new_claim machine pool requested = record {
  name = requested.id;
  generation = 0;
  finalizers = claim_finalizer ∷ [];
  creation_timestamp = 0;
  deletion_timestamp = none;
  spec = record {
    machine_ref = record { namespace = machine.namespace; name = machine.name };
    pool_ref = record { name = pool.name };
    eni_id = requested.id;
  };
  status = record { phase = ""; private_ip = ""; conditions = [] };
}

-- What follows the answer to a creation: `next` is the rest of the loop.
unfoldable pub after_create : Go (Option EniClaim) → Result ApiError EniClaim → Go (Option EniClaim)
after_create next (ok claim) = pure (some claim)
after_create next (err already_exists) = next
after_create next (err e) = fail (api e)

-- The loop that creates claims: the first one that the server takes is the reservation.
unfoldable pub create_first : AwsMachine → EniPool → List EniReference → Go (Option EniClaim)
unfolding after_create
create_first machine pool [] = pure none
create_first machine pool (requested ∷ rest) =
    call (create_claim (new_claim machine pool requested))
      (after_create (create_first machine pool rest))

-- The interfaces that may be claimed: all of the pool, or those with the key.
unfoldable pub configured : EniPool → String → List EniReference
configured pool key =
    if key == "" then pool.spec.interfaces else filter (λ c. c.key == key) pool.spec.interfaces

unfoldable pub reserve : AwsMachine → EniPool → String → Go (Option EniClaim)
unfolding configured create_first
reserve machine pool key =
    if not (key == "") && is_empty (configured pool key)
    then fail (no_interface_with_key pool.name key)
    else create_first machine pool (sort_slice private_ip_lt (configured pool key))
