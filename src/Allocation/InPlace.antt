-- ===== src/Allocation/InPlace.antt =====
-- The start of claimInterface as it is, on the arrays: the interfaces of the pool, which is shared
-- with the client's cache, are copied, and the copy is filtered in place.
use capa_eni_controller.Prelude.{
  String, ℕ, suc, ◌<◌, ◌≤◌, ◌≡◌, refl, sym, ap, ◌∙◌, inl, Option, none, some, ◌==◌, if◌then◌else◌,
  arith, Bool-cases, inr, true, false,
}
use capa_eni_controller.Prelude.Lists.{length, take, filter}
use capa_eni_controller.Api.Pool.{EniReference, EniPool}
use capa_eni_controller.Slices.{Slice, Heap, contents, write, filter_loop}
use capa_eni_controller.Slices.Laws.{write-same, write-other, take-take, length-take}
use capa_eni_controller.Slices.Filter.{filter_loop-Outcome}
use capa_eni_controller.Slices.Filter
use capa_eni_controller.Allocation.{configured}

-- append([]T(nil), s...): a new array with the elements.
unfoldable pub cloned : Heap EniReference → Slice → Slice × Heap EniReference
cloned h s = (
  record { array = h.next; len = s.len },
  record (write h h.next (contents h s)) { next = suc h.next },
)

unfoldable pub configured_in_place :
    Heap EniReference → Slice → String → Option (Slice × Heap EniReference)
unfolding cloned
configured_in_place h interfaces key =
    let (copy, h₁) = cloned h interfaces in
    if key == ""
    then some (copy, h₁)
    else filter_loop (λ c. c.key == key) interfaces.len 0 interfaces (record copy { len = 0 }) h₁

-- The result is what `configured` gives, in an array of its own; those in use are as they were.
abbrev pub Configures :
    Heap EniReference → EniPool → String → Option (Slice × Heap EniReference) → Type 0
Configures h pool key none = ⊥
Configures h pool key (some (r, h')) =
    (contents h' r ≡ configured pool key)
    × (r.array ≡ h.next)
    × ((a : ℕ) → a < h.next → h'.cells a ≡ h.cells a)

module _ (h : Heap EniReference) (interfaces : Slice) (pool : EniPool) (key : String)
    (fits : interfaces.len ≤ length (h.cells interfaces.array)) (used : interfaces.array < h.next)
    (read : pool.spec.interfaces ≡ contents h interfaces) where
  abbrev after_clone : Heap EniReference
  after_clone = record (write h h.next (contents h interfaces)) { next = suc h.next }

  clone-apart : (a : ℕ) → a < h.next → after_clone.cells a ≡ h.cells a
  clone-apart a below = write-other h h.next a (contents h interfaces) (λ e. omega (arith, e))

  clone-same : after_clone.cells h.next ≡ contents h interfaces
  clone-same = write-same h h.next (contents h interfaces)

  all-Configures : (key == "") ≡ true → Configures h pool key (some (cloned h interfaces))
  unfolding cloned configured
  all-Configures e = (
    ap (take interfaces.len) clone-same
        ∙ take-take interfaces.len (h.cells interfaces.array)
        ∙ sym read
        ∙ (rw e refl),
    refl,
    clone-apart,
  )

  Outcome-Configures :
      (found : Option (Slice × Heap EniReference))
      → (key == "") ≡ false
      → Filter.Outcome
          (λ c. c.key == key)
          interfaces.len
          0
          interfaces.array
          0
          h.next
          after_clone
          found
      → Configures h pool key found
  unfolding configured
  Outcome-Configures none e o = o
  Outcome-Configures (some (r, h')) e o = (
    o.holds
        ∙ ap (λ xs. filter (λ c. c.key == key) (take interfaces.len xs))
            (clone-apart interfaces.array used)
        ∙ ap (filter (λ c. c.key == key)) (sym read)
        ∙ (rw e refl),
    o.in_place,
    (λ a below. o.others a (λ same. omega (arith, same)) ∙ clone-apart a below),
  )

  -- What claimInterface goes on with is what `configured` gives, in a new array, and no array in use
  -- is written, so the interfaces of the pool in the cache stay; for interfaces within their array.
  pub configured_in_place-Configures : Configures h pool key (configured_in_place h interfaces key)
  unfolding configured_in_place
  configured_in_place-Configures = elim (Bool-cases (key == "")) [
    | inl e ↦ rw (e, configured_in_place) (all-Configures e)
    | inr e ↦
        rw (e, configured_in_place)
          (Outcome-Configures _ e (
            filter_loop-Outcome (λ c. c.key == key) interfaces.len 0 interfaces
              (record { array = h.next; len = 0 }) after_clone
              (omega (arith, ap length (clone-apart interfaces.array used)))
              (omega (
                arith,
                ap length clone-same,
                length-take interfaces.len (h.cells interfaces.array) fits,
              ))
              (inl (λ same. omega (arith, same)))))
  ]
