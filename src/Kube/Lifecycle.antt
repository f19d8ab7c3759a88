-- ===== src/Kube/Lifecycle.antt =====
-- What the claim reconciler relies on of the API server: an object with finalizers is deleted in two
-- steps, and goes with the patch that takes the last one.
use capa_eni_controller.Prelude.{ℕ, String, ◌≡◌, ◌≢◌, Option, none, some, []}
use capa_eni_controller.Api.Claim.{EniClaim}
use capa_eni_controller.Kube.Prog.{ok, get_claim, delete_claim, patch_claim, Server}

module _ (server : Server) (stored : server.World → String → Option EniClaim) where
  open server use {World, serve}

  pub record IsLifecycle : Type 0 where
    pub get_stored :
        (n : String) (c : EniClaim) (w : World)
        → stored w n ≡ some c
        → serve (get_claim n) w ≡ (ok c, w)
    -- A claim with a finalizer is marked with the time of the deletion, perhaps with another generation,
    -- and stays.
    pub delete_marks :
        (c : EniClaim) (w : World)
        → stored w c.name ≡ some c
        → c.finalizers ≢ []
        → c.deletion_timestamp ≡ none
        → (w' : World) × (t : ℕ) × (g : ℕ) × (serve (delete_claim c) w ≡ (ok tt, w'))
          × (stored w' c.name ≡ some (record c { deletion_timestamp = some t; generation = g }))
    -- A patch that leaves a claim that is being deleted without finalizers removes it.
    pub patch_removes :
        (b c : EniClaim) (w : World)
        → stored w b.name ≡ some b
        → b.deletion_timestamp ≢ none
        → c.name ≡ b.name
        → c.finalizers ≡ []
        → (w' : World) × (c' : EniClaim) × (serve (patch_claim b c) w ≡ (ok c', w'))
          × (stored w' b.name ≡ none)
