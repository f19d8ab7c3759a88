-- ===== src/Controller/EniClaim/InPlace.antt =====
-- removeString as it is, in the array of its argument, between the deep copy and the patch of
-- removeFinalizer.
use capa_eni_controller.Prelude.{
  String, ◌≤◌, ◌≡◌, ◌≢◌, refl, ap, inr, Option, none, some, ◌==◌, not, arith,
}
use capa_eni_controller.Prelude.Lists.{length, take}
use capa_eni_controller.Slices.{Slice, Heap, contents, filter_loop}
use capa_eni_controller.Slices.Filter.{filter_loop-Outcome}
use capa_eni_controller.Slices.Filter
use capa_eni_controller.Controller.EniClaim.{remove_string}

-- removeString: `result` is `values[:0]`.
unfoldable pub remove_string_in_place : Heap String → Slice → String → Option (Slice × Heap String)
remove_string_in_place h values unwanted =
    filter_loop (λ value. not (value == unwanted)) values.len 0 values (record values { len = 0 }) h

-- The list without the text is returned, and `base` reads as before.
abbrev pub Removes : Heap String → Slice → Slice → String → Option (Slice × Heap String) → Type 0
Removes h values base unwanted none = ⊥
Removes h values base unwanted (some (r, h')) =
    (contents h' r ≡ remove_string (contents h values) unwanted)
    × (contents h' base ≡ contents h base)

Outcome-Removes :
    (h : Heap String) (values base : Slice) (unwanted : String)
    (found : Option (Slice × Heap String))
    → base.array ≢ values.array
    → Filter.Outcome
        (λ value. not (value == unwanted))
        values.len
        0
        values.array
        0
        values.array
        h
        found
    → Removes h values base unwanted found
unfolding remove_string
Outcome-Removes h values base unwanted none apart o = o
Outcome-Removes h values base unwanted (some (r, h')) apart o =
    (o.holds, ap (take base.len) (o.others base.array apart))

-- The removal in the array of the finalizers does not panic, returns what remove_string returns, and
-- leaves a copy in another array, such as the base of the patch, as it was; for finalizers within their
-- array.
pub remove_string_in_place-Removes :
    (h : Heap String) (values base : Slice) (unwanted : String)
    → values.len ≤ length (h.cells values.array)
    → base.array ≢ values.array
    → Removes h values base unwanted (remove_string_in_place h values unwanted)
unfolding remove_string_in_place
remove_string_in_place-Removes h values base unwanted fits apart =
    Outcome-Removes h values base unwanted _ apart (
      filter_loop-Outcome (λ value. not (value == unwanted)) values.len 0 values
        (record values { len = 0 }) h (omega arith) (omega arith) (inr (refl, omega arith)))
