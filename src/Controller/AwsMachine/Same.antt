-- ===== src/Controller/AwsMachine/Same.antt =====
-- What is written into a machine leaves its name, and its interfaces unless a claim gives one.
use capa_eni_controller.Prelude.{
  String, ◌≡◌, refl, ◌∙◌, inl, inr, none, some, [], ◌∷◌, Bool-cases, ◌==◌, Bool, true, false,
  if◌then◌else◌,
}
use capa_eni_controller.Api.Constants.{
  allocation_result_annotation, allocation_reason_annotation, allocation_result_allocated,
  allocation_result_dynamic_fallback, allocation_result_failed,
}
use capa_eni_controller.Api.Meta.{AwsMachine, GoMap, Dict}
use capa_eni_controller.Api.Claim.{NamespacedObjectReference, EniClaim}
use capa_eni_controller.Controller.AwsMachine.{
  remove_allocator_pause, set_annotation, allocated, failed, fallen_back,
}

-- The namespace and the name of a machine.
abbrev pub machine_name : AwsMachine → NamespacedObjectReference
machine_name m = record { namespace = m.namespace; name = m.name }

-- The same machine with the same interfaces.
pub record SameMachine (m m' : AwsMachine) : Type 0 where
  pub same : machine_name m' ≡ machine_name m
  pub interfaces : m'.network_interfaces ≡ m.network_interfaces

SameMachine-trans : (a b c : AwsMachine) → SameMachine a b → SameMachine b c → SameMachine a c
SameMachine-trans a b c h k = record {
  same = k.same ∙ h.same;
  interfaces = k.interfaces ∙ h.interfaces;
}

annotated-SameMachine :
    (m : AwsMachine) (x : GoMap) (b : Bool) (f : Dict String → GoMap)
    → SameMachine m (elim x [ none ↦ m | some d ↦ if b then m else record m { annotations = f d } ])
annotated-SameMachine m none b f = record { same = refl; interfaces = refl }
annotated-SameMachine m (some d) true f = record { same = refl; interfaces = refl }
annotated-SameMachine m (some d) false f = record { same = refl; interfaces = refl }

remove_allocator_pause-SameMachine : (m : AwsMachine) → SameMachine m (remove_allocator_pause m)
unfolding remove_allocator_pause
remove_allocator_pause-SameMachine m = annotated-SameMachine m m.annotations _ _

set_annotation-SameMachine : (m : AwsMachine) (k v : String) → SameMachine m (set_annotation m k v)
unfolding set_annotation
set_annotation-SameMachine m k v = elim (Bool-cases (v == "")) [
  | inl e ↦ rw e (record { same = refl; interfaces = refl })
  | inr e ↦ rw e (record { same = refl; interfaces = refl })
]

-- What is written is the same machine, apart from the interface of a claim.
annotated_twice-SameMachine :
    (m : AwsMachine) (k v l x : String) → SameMachine m (set_annotation (set_annotation m k v) l x)
annotated_twice-SameMachine m k v l x =
    SameMachine-trans m _ _ (set_annotation-SameMachine m k v)
      (set_annotation-SameMachine (set_annotation m k v) l x)

pub fallen_back-SameMachine :
    (m : AwsMachine) (reason : String) → SameMachine m (fallen_back m reason)
unfolding fallen_back
fallen_back-SameMachine m reason = SameMachine-trans m _ _ (remove_allocator_pause-SameMachine m) (
    annotated_twice-SameMachine (remove_allocator_pause m) allocation_result_annotation
      allocation_result_dynamic_fallback allocation_reason_annotation reason)

pub allocated-SameMachine :
    (m : AwsMachine) (c : EniClaim)
    → SameMachine (record m { network_interfaces = c.spec.eni_id ∷ [] }) (allocated m c)
unfolding allocated
allocated-SameMachine m c =
    let given : AwsMachine = record m { network_interfaces = c.spec.eni_id ∷ [] } in
    SameMachine-trans given _ _ (remove_allocator_pause-SameMachine given) (
      annotated_twice-SameMachine (remove_allocator_pause given) allocation_result_annotation
        allocation_result_allocated allocation_reason_annotation "")

pub failed-SameMachine : (m : AwsMachine) (reason : String) → SameMachine m (failed m reason)
unfolding failed
failed-SameMachine m reason =
    annotated_twice-SameMachine m allocation_result_annotation allocation_result_failed
      allocation_reason_annotation reason
