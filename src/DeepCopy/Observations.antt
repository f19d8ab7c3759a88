-- ===== src/DeepCopy/Observations.antt =====
-- ENIObservation.DeepCopyInto: a new address for what the claim reference points to.
use capa_eni_controller.Prelude.{ℕ, ◌≡◌, refl, ap, Option, none, some, arith}
use capa_eni_controller.Api.Pool.{EniObservation}
use capa_eni_controller.Slices.{at}
use capa_eni_controller.Slices.Laws.{write-same, write-other}
use capa_eni_controller.DeepCopy.{
  Memory, ObservationCells, Pointers, read_pointer, read_observation, observation_store,
}
use capa_eni_controller.DeepCopy.Code.{copy_pointer, deep_copy_observation}
use capa_eni_controller.DeepCopy.Growth.{
  Keeps, Keeps-refl, Part, pointers, observations, Grows, pointers-Grows, observations-Grows,
}
use capa_eni_controller.DeepCopy.Kinds.{Used, New, Kind, Copied, IsDeep}
use capa_eni_controller.DeepCopy.Items.{IsStore}

abbrev pub OfPointer : (Part → ℕ → Type 0) → Option ℕ → Type 0
OfPointer P none = Unit
OfPointer P (some a) = P pointers a

abbrev pub observation_kind : Kind ObservationCells EniObservation
observation_kind = record {
  read = λ m. read_observation m.pointers;
  copy = deep_copy_observation;
  Each = λ P m o. OfPointer P o.claim_ref;
}

-- The copy of a pointer reads as the pointer.
record CopiedPointer (m : Memory) (r r' : Option ℕ) (p : Pointers) : Type 0 where
  reads : read_pointer p r' ≡ read_pointer m.pointers r
  keeps : Keeps m.pointers p
  fresh : OfPointer (New m) r'
  used : OfPointer (Used (record m { pointers = p })) r'

copy_pointer-CopiedPointer :
    (m : Memory) (r : Option ℕ)
    → CopiedPointer m r (copy_pointer m.pointers r).0 (copy_pointer m.pointers r).1
unfolding copy_pointer
copy_pointer-CopiedPointer m none = record {
  reads = refl;
  keeps = Keeps-refl m.pointers;
  fresh = tt;
  used = tt;
}
copy_pointer-CopiedPointer m (some a) =
    let p = m.pointers in
    record {
      reads = ap (λ xs. at xs 0) (write-same p p.next (p.cells a));
      keeps = record {
        grows = omega arith;
        cells = λ b below. write-other p p.next b (p.cells a) (λ e. omega (arith, e));
      };
      fresh = omega arith;
      used = omega arith;
    }

pointer_stays :
    (m m' : Memory) (r : Option ℕ)
    → Grows m m'
    → OfPointer (Used m) r
    → read_pointer m'.pointers r ≡ read_pointer m.pointers r
pointer_stays m m' none g used = refl
pointer_stays m m' (some a) g used = ap (λ xs. at xs 0) (g.pointers.cells a used)

OfPointer-imp :
    (P Q : Part → ℕ → Type 0)
    → ((p : Part) (a : ℕ) → P p a → Q p a)
    → (r : Option ℕ) → OfPointer P r
    → OfPointer Q r
OfPointer-imp P Q imp none h = tt
OfPointer-imp P Q imp (some a) h = imp pointers a h

observation_stays :
    (m m' : Memory) (o : ObservationCells)
    → Grows m m'
    → OfPointer (Used m) o.claim_ref
    → read_observation m'.pointers o ≡ read_observation m.pointers o
observation_stays m m' o g used =
    ap (λ r. record (read_observation m.pointers o) { claim_ref = r })
      (pointer_stays m m' o.claim_ref g used)

observation_copies :
    (m : Memory) (o : ObservationCells)
    → OfPointer (Used m) o.claim_ref
    → Copied observation_kind m o (deep_copy_observation m o).0 (deep_copy_observation m o).1
unfolding deep_copy_observation
observation_copies m o used =
    let p = (copy_pointer m.pointers o.claim_ref).1 in
    let c = copy_pointer-CopiedPointer m o.claim_ref in
    let g = pointers-Grows m p c.keeps in
    record {
      reads = ap (λ r. record (read_observation m.pointers o) { claim_ref = r }) c.reads;
      original = observation_stays m (record m { pointers = p }) o g used;
      grows = g;
      fresh = c.fresh;
      used = c.used;
    }

pub observation-IsDeep : IsDeep observation_kind
observation-IsDeep = record {
  imp = λ P Q imp m o. OfPointer-imp P Q imp o.claim_ref;
  stays = observation_stays;
  moves = λ P m m' o g used h. h;
  copies = observation_copies;
}

pub observation_store-IsStore : IsStore observation_store observations
observation_store-IsStore = record {
  next_get = λ m. refl;
  get_put = λ m h. refl;
  put_grows = λ m h keeps. observations-Grows m h keeps;
  grows_get = λ m m' g. g.observations;
}
