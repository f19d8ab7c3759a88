-- ===== src/Kube/ClaimStore.antt =====
-- What the reservation relies on of the API server: claims are stored by name, and a creation is
-- atomic on the name. An answer other than success and AlreadyExists is left open.
use capa_eni_controller.Prelude.{String, ◌≡◌, ◌≢◌, Option, none, some, ◌==◌, if◌then◌else◌}
use capa_eni_controller.Api.Claim.{EniClaim}
use capa_eni_controller.Kube.Prog.{Op, ok, err, already_exists, create_claim, Server, IsRead}

module _ (server : Server) where
  open server use {World, serve}

  -- A created claim is stored under a name that was free, with the name and the specification that
  -- were asked for; a refused one was there.
  pub record IsClaimStore (stored : World → String → Option EniClaim) : Type 0 where
    pub read_keeps :
        (o : Op) (w : World) → IsRead o → (n : String) → stored (serve o w).1 n ≡ stored w n
    pub create_free :
        (c c' : EniClaim) (w w' : World)
        → serve (create_claim c) w ≡ (ok c', w')
        → stored w c.name ≡ none
    pub create_answer :
        (c c' : EniClaim) (w w' : World)
        → serve (create_claim c) w ≡ (ok c', w')
        → (c'.name ≡ c.name) × (c'.spec ≡ c.spec)
    pub create_stores :
        (c c' : EniClaim) (w w' : World)
        → serve (create_claim c) w ≡ (ok c', w')
        → (n : String) → stored w' n ≡ (if c.name == n then some c' else stored w n)
    pub create_taken :
        (c : EniClaim) (w w' : World)
        → serve (create_claim c) w ≡ (err already_exists, w')
        → stored w c.name ≢ none
    pub create_keeps :
        (c : EniClaim) (w w' : World)
        → serve (create_claim c) w ≡ (err already_exists, w')
        → (n : String) → stored w' n ≡ stored w n
