-- ===== src/Allocation/Requests.antt =====
-- What choosing and reserving an interface asks of the server.
use capa_eni_controller.Prelude.{String, Option, List, [], ◌∷◌}
use capa_eni_controller.Prelude.Lists.{All}
use capa_eni_controller.Api.Meta.{AwsMachine, OwnerReference}
use capa_eni_controller.Api.Claim.{EniClaim}
use capa_eni_controller.Api.Pool.{EniReference, EniPool}
use capa_eni_controller.Kube.Prog.{
  Op, create_claim, Only, quiet, asks, IsRead, ok, err, Result, ApiError, not_found, already_exists,
  conflict, other,
}
use capa_eni_controller.Kube.Go.{Go}
use capa_eni_controller.Kube.Platform.{Platform}
use capa_eni_controller.Kube.Rules.{Only-if}
use capa_eni_controller.Sort.{sort_slice}
use capa_eni_controller.Sort.Laws.{sort_slice-All}
use capa_eni_controller.Allocation.{
  find_pool, owner_interface_key, resolve_interface_key, is_machine_owner, after_create,
  create_first, new_claim, configured, reserve, private_ip_lt,
}
use capa_eni_controller.Allocation.Selection.{configured-All}

pub find_pool-reads : (region vpc_id : String) → Only IsRead (find_pool region vpc_id)
unfolding find_pool
find_pool-reads region vpc_id = asks tt (elim [ ok items ↦ quiet _ | err e ↦ quiet _ ])

module _ (platform : Platform) where
  owner_interface_key-reads :
      (namespace : String) (owners : List OwnerReference)
      → Only IsRead (owner_interface_key platform namespace owners)
  unfolding owner_interface_key
  owner_interface_key-reads namespace [] = quiet _
  owner_interface_key-reads namespace (owner ∷ owners) =
      Only-if IsRead (is_machine_owner platform owner) _ _
        (asks tt (elim [ ok m ↦ quiet _ | err e ↦ quiet _ ]))
        (owner_interface_key-reads namespace owners)

  pub resolve_interface_key-reads :
      (obj : AwsMachine) → Only IsRead (resolve_interface_key platform obj)
  unfolding resolve_interface_key
  resolve_interface_key-reads obj =
      Only-if IsRead _ _ _ (quiet _) (owner_interface_key-reads obj.namespace obj.owner_references)

module _ (P : Op → Type 0) (machine : AwsMachine) (pool : EniPool) where
  after_create-Only :
      (next : Go (Option EniClaim)) (answer : Result ApiError EniClaim)
      → Only P next
      → Only P (after_create next answer)
  unfolding after_create
  after_create-Only next (ok claim) h = quiet _
  after_create-Only next (err already_exists) h = h
  after_create-Only next (err not_found) h = quiet _
  after_create-Only next (err conflict) h = quiet _
  after_create-Only next (err (other s)) h = quiet _

  create_first-Only :
      (refs : List EniReference)
      → All (λ r. P (create_claim (new_claim machine pool r))) refs
      → Only P (create_first machine pool refs)
  unfolding create_first
  create_first-Only [] h = quiet _
  create_first-Only (r ∷ rest) h = asks h.0 λ answer.
      after_create-Only (create_first machine pool rest) answer (create_first-Only rest h.1)

  -- A reservation only creates claims for the machine, each for an interface of the pool.
  pub reserve-Only :
      (key : String)
      → All (λ r. P (create_claim (new_claim machine pool r))) pool.spec.interfaces
      → Only P (reserve machine pool key)
  unfolding reserve
  reserve-Only key h = Only-if P _ _ _ (quiet _) (
      create_first-Only (sort_slice private_ip_lt (configured pool key))
        (sort_slice-All private_ip_lt _ _ (configured-All _ pool key h)))
