-- ===== src/Tests/Endings.antt =====
-- How the reconciles of a machine and of a claim end.
use capa_eni_controller.Prelude.{[]}
use capa_eni_controller.Api.Meta.{NamespacedName}
use capa_eni_controller.Kube.History.{Yields}
use capa_eni_controller.Allocation.Refusals.{Any}
use capa_eni_controller.Controller.AwsMachine
use capa_eni_controller.Controller.AwsMachine.Ended.{MachineEnded}
use capa_eni_controller.Controller.AwsMachine.Endings.{reconcile-MachineEnded}
use capa_eni_controller.Controller.EniClaim
use capa_eni_controller.Controller.EniClaim.Ended.{ClaimEnded}
use capa_eni_controller.Controller.EniClaim.Endings.{reconcile-ClaimEnded}
use capa_eni_controller.Tests.Memory.{platform}
use capa_eni_controller.Tests.Claims.{reconciler}

abbrev request : NamespacedName
request = record { namespace = "workload"; name = "worker-abcde" }

reconcile-MachineEnded_example :
    Yields Any
      (MachineEnded platform reconciler request)
      []
      (AwsMachine.reconcile platform reconciler request)
reconcile-MachineEnded_example = reconcile-MachineEnded platform reconciler request

reconcile-ClaimEnded_example :
    Yields Any
      (ClaimEnded (record { namespace = ""; name = "eni-0123" }))
      []
      (EniClaim.reconcile (record { namespace = ""; name = "eni-0123" }))
reconcile-ClaimEnded_example = reconcile-ClaimEnded (record { namespace = ""; name = "eni-0123" })
