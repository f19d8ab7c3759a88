-- ===== src/Tests/Data.antt =====
-- One cluster with a pool of three interfaces, a second pool, and a machine that has opted in.
use capa_eni_controller.Prelude.{refl, none, some, List, [], ◌∷◌}
use capa_eni_controller.Prelude.Lists.{All}
use capa_eni_controller.Api.Constants.{
  allocate_from_pool_annotation, allocator_paused_annotation, capi_paused_annotation,
}
use capa_eni_controller.Api.Meta.{AwsMachine}
use capa_eni_controller.Api.Claim.{EniClaim}
use capa_eni_controller.Api.Pool.{EniReference, EniPool, exhaustion_policy_fail}
use capa_eni_controller.Netip.{parse_addr}
use capa_eni_controller.Allocation.Order.{HasIpv4}
use capa_eni_controller.Tests.Memory.{World}

abbrev pub low : EniReference
low = record { key = "core-worker-1"; id = "eni-0123"; private_ip = "10.0.0.9" }

abbrev pub middle : EniReference
middle = record { key = "edge-worker-1"; id = "eni-0999"; private_ip = "10.0.0.10" }

abbrev pub high : EniReference
high = record { key = "core-worker-2"; id = "eni-0456"; private_ip = "10.0.1.1" }

-- Declared out of order: as texts "10.0.0.10" stands before "10.0.0.9".
abbrev pub pool_a : EniPool
pool_a = record {
  name = "pool-a";
  generation = 1;
  spec = record {
    region = "ap-northeast-2";
    vpc_id = "vpc-0123";
    interfaces = high ∷ middle ∷ low ∷ [];
    exhaustion_policy = "Dynamic";
  };
  status = record { observed_generation = 0; interfaces = []; conditions = [] };
}

abbrev pub pool_b : EniPool
pool_b = record {
  name = "pool-b";
  generation = 1;
  spec = record {
    region = "ap-northeast-2";
    vpc_id = "vpc-0999";
    interfaces = record { key = ""; id = "eni-0777"; private_ip = "10.1.0.1" } ∷ [];
    exhaustion_policy = exhaustion_policy_fail;
  };
  status = record { observed_generation = 0; interfaces = []; conditions = [] };
}

abbrev pub machine : AwsMachine
machine = record {
  namespace = "workload";
  name = "worker-abcde";
  labels = some (("cluster.x-k8s.io/cluster-name", "cluster-a") ∷ []);
  annotations = some ((allocate_from_pool_annotation, "true") ∷ []);
  owner_references = [];
  deletion_timestamp = none;
  network_interfaces = [];
}

-- The machine as the defaulter without a client has left it.
abbrev pub paused_machine : AwsMachine
paused_machine = record machine {
  annotations = some (
      (allocate_from_pool_annotation, "true")
      ∷ (capi_paused_annotation, "true")
      ∷ (allocator_paused_annotation, "true")
      ∷ []);
}

abbrev pub claim_of_machine : EniReference → EniClaim
claim_of_machine r = record {
  name = r.id;
  generation = 0;
  finalizers = "eniclaim.networking.dcn.ssu.ac.kr" ∷ [];
  creation_timestamp = 0;
  deletion_timestamp = none;
  spec = record {
    machine_ref = record { namespace = "workload"; name = "worker-abcde" };
    pool_ref = record { name = "pool-a" };
    eni_id = r.id;
  };
  status = record { phase = ""; private_ip = ""; conditions = [] };
}

abbrev pub world : World
world = record {
  aws_machines = machine ∷ [];
  machines = [];
  clusters =
      (
        "cluster-a",
        record {
          infrastructure_ref = record {
            api_group = "infrastructure.cluster.x-k8s.io";
            kind = "AWSCluster";
            name = "aws-a";
          };
        },
      )
      ∷ [];
  aws_clusters = ("aws-a", record { region = "ap-northeast-2"; vpc_id = "vpc-0123" }) ∷ [];
  pools = pool_a ∷ [];
  claims = [];
  clock = 60_000_000_000;
}

-- The same with the claims for some interfaces.
abbrev pub world_with : List EniClaim → World
world_with claims = record world { claims = claims }

pub pool_a-HasIpv4 : All HasIpv4 pool_a.spec.interfaces
unfolding parse_addr
pool_a-HasIpv4 = ((_, refl), ((_, refl), ((_, refl), tt)))
