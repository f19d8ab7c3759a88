-- ===== src/Webhook/EniPool.antt =====
-- internal/webhook/v1alpha1/enipool_webhook.go: the default policy of a pool, and the test of its
-- declaration on its own and against the other pools.
pub mod Interfaces
pub mod Others
pub mod Admission
pub mod Validity
use capa_eni_controller.Prelude.{
  String, Bool, true, false, not, ◌&&◌, ◌||◌, Option, none, some, List, [], ◌∷◌, ◌==◌,
  if◌then◌else◌,
}
use capa_eni_controller.Api.Pool.{EniReference, EniPool, exhaustion_policy_dynamic}
use capa_eni_controller.Kube.Prog.{
  ret, call, Result, ok, err, Error, duplicate_eni, invalid_private_ip, duplicate_private_ip,
  duplicate_key, pool_owns_network, eni_in_other_pool, list_pools,
}
use capa_eni_controller.Kube.Go.{Go, pure, fail, ◌>>=◌, wrap}
use capa_eni_controller.Netip.{Addr, parse_addr, is4, addr_eq}

unfoldable pub default : EniPool → EniPool
default obj =
    if obj.spec.exhaustion_policy == ""
    then record obj { spec = record (obj.spec) { exhaustion_policy = exhaustion_policy_dynamic } }
    else obj

-- _, duplicate := m[s] and _, duplicate := m[ip]
unfoldable pub has_text : String → List String → Bool
has_text s [] = false
has_text s (x ∷ xs) = x == s || has_text s xs

unfoldable pub has_addr : Addr → List Addr → Bool
has_addr a [] = false
has_addr a (x ∷ xs) = addr_eq x a || has_addr a xs

-- The maps `wanted`, `wantedIPs` and `wantedKeys` of validate.
pub record Wanted : Type 0 where
  pub ids : List String
  pub ips : List Addr
  pub keys : List String

abbrev pub no_wanted : Wanted
no_wanted = record { ids = []; ips = []; keys = [] }

-- One round of the loop over the pool's own interfaces.
unfoldable pub check_interface : Wanted → EniReference → Result Error Wanted
unfolding has_text has_addr
check_interface w configured =
    if has_text configured.id w.ids
    then err (duplicate_eni configured.id)
    else elim (parse_addr configured.private_ip) [
      | none ↦ err (invalid_private_ip configured.id)
      | some ip ↦
          if not (is4 ip)
          then err (invalid_private_ip configured.id)
          else if has_addr ip w.ips
          then err (duplicate_private_ip configured.private_ip)
          else if not (configured.key == "") && has_text configured.key w.keys
          then err (duplicate_key configured.key)
          else ok (record {
            ids = configured.id ∷ w.ids;
            ips = ip ∷ w.ips;
            keys = if configured.key == "" then w.keys else configured.key ∷ w.keys;
          })
    ]

unfoldable pub check_interfaces : Wanted → List EniReference → Result Error Wanted
check_interfaces w [] = ok w
check_interfaces w (configured ∷ rest) = elim (check_interface w configured) [
  | err e ↦ err e
  | ok w' ↦ check_interfaces w' rest
]

-- The first interface of another pool that is also in this one.
unfoldable pub shared_interface : List String → List EniReference → Option String
unfolding has_text
shared_interface wanted [] = none
shared_interface wanted (configured ∷ rest) =
    let later = shared_interface wanted rest in
    if has_text configured.id wanted then some configured.id else later

-- The loop over the other pools.
unfoldable pub check_others : EniPool → List String → List EniPool → Result Error Unit
unfolding shared_interface
check_others obj wanted [] = ok tt
check_others obj wanted (other ∷ items) =
    let later = check_others obj wanted items in
    if other.name == obj.name
    then later
    else if other.spec.region == obj.spec.region && other.spec.vpc_id == obj.spec.vpc_id
    then err (pool_owns_network other.name obj.spec.region obj.spec.vpc_id)
    else elim (shared_interface wanted other.spec.interfaces) [
      | some id ↦ err (eni_in_other_pool id other.name)
      | none ↦ later
    ]

-- Whether the validator has a client.
pub record EniPoolCustomValidator : Type 0 where
  pub client : Bool

-- The part of validate that needs the client.
unfoldable pub validate_others : EniPoolCustomValidator → EniPool → Wanted → Go Unit
unfolding check_others
validate_others v obj wanted = if not v.client then pure tt else do
  items ← call list_pools (λ r. ret (wrap "list ENIPools" r))
  ret (check_others obj wanted.ids items)

unfoldable pub validate : EniPoolCustomValidator → EniPool → Go Unit
unfolding check_interfaces validate_others
validate v obj = do
  wanted ← ret (check_interfaces no_wanted obj.spec.interfaces)
  validate_others v obj wanted

unfoldable pub validate_create : EniPoolCustomValidator → EniPool → Go Unit
unfolding validate
validate_create v obj = validate v obj

unfoldable pub validate_update : EniPoolCustomValidator → EniPool → EniPool → Go Unit
unfolding validate
validate_update v old_obj new_obj = validate v new_obj

unfoldable pub validate_delete : EniPool → Go Unit
validate_delete obj = pure tt
