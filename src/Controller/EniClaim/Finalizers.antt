-- ===== src/Controller/EniClaim/Finalizers.antt =====
-- The lists of finalizers.
use capa_eni_controller.Prelude.{
  String, ◌≡◌, false, ◌||◌, List, [], ◌∷◌, ◌++◌, ◌==◌, if◌then◌else◌, arith, eq_iff,
}
use capa_eni_controller.Controller.EniClaim.{contains_string, remove_string}

-- After the removal of a text the list contains what it contained before, but for that text.
pub contains_string-remove_string :
    (values : List String) (unwanted wanted : String)
    → contains_string (remove_string values unwanted) wanted
      ≡ (if wanted == unwanted then false else contains_string values wanted)
unfolding contains_string remove_string
contains_string-remove_string [] unwanted wanted = ground arith
contains_string-remove_string (v ∷ values) unwanted wanted = ground (
  arith,
  contains_string-remove_string values unwanted wanted,
  eq_iff v unwanted,
  eq_iff v wanted,
  eq_iff wanted unwanted,
)

-- A list with a text added contains that text and what it contained before.
pub contains_string-append :
    (values : List String) (added wanted : String)
    → contains_string (values ++ (added ∷ [])) wanted
      ≡ (contains_string values wanted || added == wanted)
unfolding contains_string
contains_string-append [] added wanted = ground arith
contains_string-append (v ∷ values) added wanted =
    ground (arith, contains_string-append values added wanted)

-- The removal of a finalizer that was appended gives back the list, where it was not in it.
pub remove_string-append :
    (values : List String) (added : String)
    → contains_string values added ≡ false
    → remove_string (values ++ (added ∷ [])) added ≡ values
unfolding contains_string remove_string
remove_string-append [] added h = ground (arith, eq_iff added added)
remove_string-append (v ∷ values) added h =
    ground (arith, remove_string-append values added, eq_iff v added)
