-- ===== src/Controller/AwsMachine/Pause.antt =====
-- The pause that the webhook writes without a client, and its removal by the reconciler.
use capa_eni_controller.Prelude.{
  String, ◌≡◌, refl, sym, inl, inr, true, none, some, ◌==◌, eq_iff, Bool-cases, subst,
}
use capa_eni_controller.Api.Constants.{capi_paused_annotation, allocator_paused_annotation}
use capa_eni_controller.Api.Meta.{
  AwsMachine, GoMap, Dict, find, get, lookup, insert, remove, made, dict_laws,
}
use capa_eni_controller.Webhook.AwsMachine
use capa_eni_controller.Controller.AwsMachine.{remove_allocator_pause}

abbrev held : Dict String → Dict String
held d = insert allocator_paused_annotation "true" (insert capi_paused_annotation "" d)

get-held : (d : Dict String) → (get allocator_paused_annotation (some (held d)) == "true") ≡ true
unfolding get find
get-held d = simp dict_laws

paused-released :
    (obj : AwsMachine)
    → (remove_allocator_pause (AwsMachine.paused obj)).annotations
      ≡ some (
          remove capi_paused_annotation
            (remove allocator_paused_annotation (held (made obj.annotations))))
unfolding remove_allocator_pause AwsMachine.paused
paused-released obj = rw (get-held (made obj.annotations)) refl

lookup-made : (k : String) (a : GoMap) → lookup k (made a) ≡ find k a
unfolding find lookup
lookup-made k none = refl
lookup-made k (some d) = refl

-- The removal of the pause takes back what the webhook wrote: every annotation is what it was before,
-- for a machine that carried neither pause.
pub remove_allocator_pause-paused :
    (obj : AwsMachine) (k : String)
    → find capi_paused_annotation obj.annotations ≡ none
    → find allocator_paused_annotation obj.annotations ≡ none
    → find k (remove_allocator_pause (AwsMachine.paused obj)).annotations ≡ find k obj.annotations
unfolding find
remove_allocator_pause-paused obj k no_capi no_allocator =
    elim (Bool-cases (capi_paused_annotation == k)) [
      | inl e ↦
          rw (paused-released obj)
            (simp (dict_laws, e) (sym (same capi_paused_annotation no_capi e)))
      | inr e ↦ elim (Bool-cases (allocator_paused_annotation == k)) [
        | inl e' ↦
            rw (paused-released obj)
              (simp (dict_laws, e, e') (sym (same allocator_paused_annotation no_allocator e')))
        | inr e' ↦
            rw (paused-released obj) (simp (dict_laws, e, e') (lookup-made k obj.annotations))
      ]
    ]
  where
    same :
        (j : String)
        → find j obj.annotations ≡ none
        → (j == k) ≡ true
        → find k obj.annotations ≡ none
    same j missing e = subst (λ i. find i obj.annotations ≡ none) ((eq_iff j k).0 e) missing
