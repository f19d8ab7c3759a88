-- ===== src/Kube/Prog.antt =====
-- Requests of the controllers and webhooks, and programs that make them.
use capa_eni_controller.Prelude.{ℕ, String, ◌≡◌, refl, List}
use capa_eni_controller.Api.Meta.{
  NamespacedName, AwsMachine, Machine, Cluster, AwsCluster, Condition,
}
use capa_eni_controller.Api.Claim.{EniClaim}
use capa_eni_controller.Api.Pool.{EniPool}

-- The kinds of failure that the code tells apart (`apierrors.IsNotFound`, ...), and all others.
pub data ApiError : Type 0 where
  not_found already_exists conflict : ApiError
  other : String → ApiError

-- The errors: those of the API server, as they come or wrapped by `fmt.Errorf("...: %w", err)`,
-- and one constructor for each message of the code, with what it prints.
pub data Error : Type 0 where
  api : ApiError → Error
  wrapped : String → ApiError → Error
  no_cluster_name_label : Error
  no_machine_owner : Error
  no_aws_cluster : Error
  network_not_ready : Error
  multiple_pools : String → String → Error
  no_interface_with_key : String → String → Error
  duplicate_eni : String → Error
  invalid_private_ip : String → Error
  duplicate_private_ip : String → Error
  duplicate_key : String → Error
  pool_owns_network : String → String → String → Error
  eni_in_other_pool : String → String → Error
  claim_name_differs : Error
  claim_spec_immutable : Error

-- A pair of a value and an `error` of which one counts.
pub data Result {ℓ} (E A : Type ℓ) : Type ℓ where
  ok : A → Result E A
  err : E → Result E A

-- One constructor for each call that leaves the process: the API server, the clock, the recorder,
-- the metrics, and apimachinery's `SetStatusCondition`, which reads the clock.
pub data Op : Type 0 where
  get_aws_machine : NamespacedName → Op
  get_machine : NamespacedName → Op
  get_cluster : NamespacedName → Op
  get_aws_cluster : NamespacedName → Op
  get_pool : String → Op
  get_claim : String → Op
  list_pools : Op
  list_claims : Op
  create_claim : EniClaim → Op
  delete_claim : EniClaim → Op
  patch_claim : EniClaim → EniClaim → Op
  patch_aws_machine : AwsMachine → AwsMachine → Op
  update_claim_status : EniClaim → Op
  update_pool_status : EniPool → Op
  now : Op
  set_status_condition : List Condition → Condition → Op
  record_event : String → String → String → Op
  inc_dynamic_fallbacks : String → Op
  set_pool_available : String → String → String → ℕ → Op

-- A successful write answers with the object as the server has stored it, which the client library
-- decodes into the object that was passed.
abbrev pub Response : Op → Type 0
Response (get_aws_machine k) = Result ApiError AwsMachine
Response (get_machine k) = Result ApiError Machine
Response (get_cluster k) = Result ApiError Cluster
Response (get_aws_cluster k) = Result ApiError AwsCluster
Response (get_pool k) = Result ApiError EniPool
Response (get_claim k) = Result ApiError EniClaim
Response list_pools = Result ApiError (List EniPool)
Response list_claims = Result ApiError (List EniClaim)
Response (create_claim c) = Result ApiError EniClaim
Response (delete_claim c) = Result ApiError Unit
Response (patch_claim b c) = Result ApiError EniClaim
Response (patch_aws_machine b m) = Result ApiError AwsMachine
Response (update_claim_status c) = Result ApiError EniClaim
Response (update_pool_status p) = Result ApiError EniPool
Response now = ℕ
Response (set_status_condition cs c) = List Condition
Response (record_event t r n) = Unit
Response (inc_dynamic_fallbacks r) = Unit
Response (set_pool_available p r v n) = Unit

-- The requests that change nothing: reads, and the clock.
abbrev pub IsRead : Op → Type 0
IsRead (get_aws_machine k) = Unit
IsRead (get_machine k) = Unit
IsRead (get_cluster k) = Unit
IsRead (get_aws_cluster k) = Unit
IsRead (get_pool k) = Unit
IsRead (get_claim k) = Unit
IsRead list_pools = Unit
IsRead list_claims = Unit
IsRead now = Unit
IsRead (set_status_condition cs c) = Unit
IsRead _ = ⊥

pub data Prog (A : Type 0) : Type 0 where
  ret : A → Prog A
  call : (o : Op) → (Response o → Prog A) → Prog A

abbrev pub request : (o : Op) → Prog (Response o)
request o = call o ret

abbrev pub bind : {A B : Type 0} → Prog A → (A → Prog B) → Prog B
bind (ret a) f = f a
bind (call o k) f = call o (λ r. bind (k r) f)

-- What answers: any state, and an answer to each request.
pub record Server : Type 1 where
  pub World : Type 0
  pub serve : (o : Op) → World → Response o × World

module _ (server : Server) where
  open server use {World, serve}

  abbrev pub run : {A : Type 0} → Prog A → World → A × World
  run (ret a) w = (a, w)
  run (call o k) w = let (r, w') = serve o w in run (k r) w'

  -- A run goes through a sequence of programs one after the other.
  pub run-bind :
      {A B : Type 0} (m : Prog A) (f : A → Prog B) (w : World)
      → run (bind m f) w ≡ (let (a, w') = run m w in run (f a) w')
  run-bind (ret a) f w = refl
  run-bind (call o k) f w = let (r, w') = serve o w in run-bind (k r) f w'

-- Every request that the program can make satisfies `P`, whatever it is answered.
pub data Only {A : Type 0} (P : Op → Type 0) : Prog A → Type 0 where
  quiet : (a : A) → Only P (ret a)
  asks :
      {o : Op} {k : Response o → Prog A}
      → P o
      → ((r : Response o) → Only P (k r))
      → Only P (call o k)
