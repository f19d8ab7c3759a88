-- ===== src/Tests/Slices.antt =====
-- Slices that share arrays with others.
use capa_eni_controller.Prelude.{String, refl, [], ◌∷◌, arith}
use capa_eni_controller.Api.Constants.{claim_finalizer}
use capa_eni_controller.Api.Pool.{EniReference}
use capa_eni_controller.Slices.{Slice, Heap}
use capa_eni_controller.Allocation.InPlace.{
  Configures, configured_in_place, configured_in_place-Configures,
}
use capa_eni_controller.Controller.EniClaim.InPlace.{
  Removes, remove_string_in_place, remove_string_in_place-Removes,
}
use capa_eni_controller.Tests.Data.{pool_a, low, middle, high}

-- The finalizers in the array 0, and their deep copy in the array 1.
abbrev finalizers : Heap String
finalizers = record {
  cells = λ a. "foregroundDeletion" ∷ claim_finalizer ∷ "orphan" ∷ [];
  next = 2;
}

abbrev values : Slice
values = record { array = 0; len = 3 }

abbrev base : Slice
base = record { array = 1; len = 3 }

remove_string_in_place-Removes_example :
    Removes finalizers values base claim_finalizer
      (remove_string_in_place finalizers values claim_finalizer)
remove_string_in_place-Removes_example =
    remove_string_in_place-Removes finalizers values base claim_finalizer (omega arith)
      (λ e. omega (arith, e))

abbrev interfaces : Heap EniReference
interfaces = record { cells = λ a. high ∷ middle ∷ low ∷ []; next = 5 }

abbrev of_pool : Slice
of_pool = record { array = 4; len = 3 }

configured_in_place-Configures_example :
    Configures interfaces pool_a "core-worker-2"
      (configured_in_place interfaces of_pool "core-worker-2")
configured_in_place-Configures_example =
    configured_in_place-Configures interfaces of_pool pool_a "core-worker-2" (omega arith)
      (omega arith) refl
