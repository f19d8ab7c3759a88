-- ===== src/DeepCopy/Plain.antt =====
-- Slices of values that have no references of their own.
use capa_eni_controller.Prelude.{ℕ, ◌<◌, ◌≤◌, ◌≡◌, refl, ap, Option, none, some, arith}
use capa_eni_controller.Prelude.Lists.{take}
use capa_eni_controller.Slices.{Slice, Heap, contents}
use capa_eni_controller.Slices.Laws.{write-other}
use capa_eni_controller.DeepCopy.{read_slice}
use capa_eni_controller.DeepCopy.Code.{copy_slice}
use capa_eni_controller.DeepCopy.Copies.{copy_slice-reads}
pub use capa_eni_controller.DeepCopy.Copies.{OfSlice, SameNil}
use capa_eni_controller.DeepCopy.Growth.{Keeps, Keeps-refl}

pub OfSlice-imp :
    (P Q : ℕ → Type 0) → ((a : ℕ) → P a → Q a) → (s : Option Slice) → OfSlice P s → OfSlice Q s
OfSlice-imp P Q imp none h = tt
OfSlice-imp P Q imp (some s) h = imp s.array h

module _ {A : Type 0} where
  pub read_slice-stays :
      (h h' : Heap A) (s : Option Slice)
      → Keeps h h'
      → OfSlice (λ a. a < h.next) s
      → read_slice h' s ≡ read_slice h s
  read_slice-stays h h' none keeps used = refl
  read_slice-stays h h' (some s) keeps used = ap (take s.len) (keeps.cells s.array used)

  pub record CopiedSlice (h : Heap A) (s s' : Option Slice) (h' : Heap A) : Type 0 where
    pub reads : read_slice h' s' ≡ read_slice h s
    pub keeps : Keeps h h'
    pub fresh : OfSlice (λ a. h.next ≤ a) s'
    pub used : OfSlice (λ a. a < h'.next) s'

  pub copy_slice-CopiedSlice :
      (h : Heap A) (s : Option Slice) → CopiedSlice h s (copy_slice h s).0 (copy_slice h s).1
  unfolding copy_slice
  copy_slice-CopiedSlice h none = record {
    reads = refl;
    keeps = Keeps-refl h;
    fresh = tt;
    used = tt;
  }
  copy_slice-CopiedSlice h (some s) = record {
    reads = copy_slice-reads h (some s);
    keeps = record {
      grows = omega arith;
      cells = λ a below. write-other h h.next a (contents h s) (λ e. omega (arith, e));
    };
    fresh = omega arith;
    used = omega arith;
  }

  pub copy_slice-SameNil : (h : Heap A) (s : Option Slice) → SameNil s (copy_slice h s).0
  unfolding copy_slice
  copy_slice-SameNil h none = tt
  copy_slice-SameNil h (some s) = tt
