-- ===== src/DeepCopy/Kinds.antt =====
-- What a deep copy is, for every kind of object that has references.
use capa_eni_controller.Prelude.{ℕ, ◌<◌, ◌≤◌, ◌≡◌}
use capa_eni_controller.DeepCopy.{Memory}
use capa_eni_controller.DeepCopy.Growth.{Part, next, Grows}

-- References in use, and references that were not in use.
abbrev pub Used : Memory → Part → ℕ → Type 0
Used m p a = a < next m p

abbrev pub New : Memory → Part → ℕ → Type 0
New m p a = next m p ≤ a

-- How an object is read and copied, and what it is that each reference within it satisfies `P`.
pub record Kind (C V : Type 0) : Type 1 where
  pub read : Memory → C → V
  pub copy : Memory → C → C × Memory
  pub Each : (Part → ℕ → Type 0) → Memory → C → Type 0

module _ {C V : Type 0} (k : Kind C V) where
  open k use {read, copy, Each}

  -- The copy reads as the original, which still reads as before; the memory only grows; and each
  -- reference within the copy was not in use before, and is now.
  pub record Copied (m : Memory) (c c' : C) (m' : Memory) : Type 0 where
    pub reads : read m' c' ≡ read m c
    pub original : read m' c ≡ read m c
    pub grows : Grows m m'
    pub fresh : Each (New m) m' c'
    pub used : Each (Used m') m' c'

  pub record IsDeep : Type 1 where
    pub imp :
        (P Q : Part → ℕ → Type 0)
        → ((p : Part) (a : ℕ) → P p a → Q p a)
        → (m : Memory) (c : C) → Each P m c
        → Each Q m c
    pub stays : (m m' : Memory) (c : C) → Grows m m' → Each (Used m) m c → read m' c ≡ read m c
    pub moves :
        (P : Part → ℕ → Type 0) (m m' : Memory) (c : C)
        → Grows m m'
        → Each (Used m) m c
        → Each P m c
        → Each P m' c
    pub copies : (m : Memory) (c : C) → Each (Used m) m c → Copied m c (copy m c).0 (copy m c).1
