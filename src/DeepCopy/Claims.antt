-- ===== src/DeepCopy/Claims.antt =====
-- ENIClaim.DeepCopyInto as a deep copy of its kind.
use capa_eni_controller.Prelude.{String, ◌≡◌, refl, Option}
use capa_eni_controller.Api.Claim.{EniClaim}
use capa_eni_controller.Slices.{Slice, Heap}
use capa_eni_controller.DeepCopy.{Memory, ClaimCells, read_claim, claim_store}
use capa_eni_controller.DeepCopy.Code.{
  copy_slice, CopyMeta, deep_copy_claim_status, deep_copy_claim,
}
use capa_eni_controller.DeepCopy.Copies.{IsMetaCopy, read_eq}
use capa_eni_controller.DeepCopy.Growth.{
  Keeps, texts, conditions, claims, Grows, Grows-trans, texts-Grows, conditions-Grows, claims-Grows,
}
use capa_eni_controller.DeepCopy.Kinds.{Used, Kind, Copied, IsDeep}
use capa_eni_controller.DeepCopy.Items.{IsStore}
use capa_eni_controller.DeepCopy.Plain.{
  OfSlice, OfSlice-imp, read_slice-stays, copy_slice-CopiedSlice,
}

module _ (copy_meta : CopyMeta) where
  abbrev pub claim_kind : Kind ClaimCells EniClaim
  claim_kind = record {
    read = read_claim;
    copy = deep_copy_claim copy_meta;
    Each = λ P m c. OfSlice (P texts) c.finalizers × OfSlice (P conditions) c.status.conditions;
  }

  pub meta-Keeps :
      IsMetaCopy copy_meta → (h : Heap String) (s : Option Slice) → Keeps h (copy_meta h s).1
  meta-Keeps meta h s = record { grows = meta.grows h s; cells = meta.keeps h s }

  claim_stays :
      (m m' : Memory) (c : ClaimCells)
      → Grows m m'
      → claim_kind.Each (Used m) m c
      → read_claim m' c ≡ read_claim m c
  claim_stays m m' c g used =
      read_eq m m c _ _ (read_slice-stays m.texts m'.texts c.finalizers g.texts used.0)
        (read_slice-stays m.conditions m'.conditions c.status.conditions g.conditions used.1)

  claim_copies :
      (m : Memory) (c : ClaimCells)
      → IsMetaCopy copy_meta
      → claim_kind.Each (Used m) m c
      → Copied claim_kind m c (deep_copy_claim copy_meta m c).0 (deep_copy_claim copy_meta m c).1
  unfolding deep_copy_claim deep_copy_claim_status
  claim_copies m c meta used =
      let m₁ : Memory = record m { texts = (copy_meta m.texts c.finalizers).1 } in
      let slice = copy_slice-CopiedSlice m.conditions c.status.conditions in
      let h = (copy_slice m.conditions c.status.conditions).1 in
      let g =
        Grows-trans m m₁ (record m₁ { conditions = h })
          (texts-Grows m (copy_meta m.texts c.finalizers).1 (meta-Keeps meta m.texts c.finalizers))
          (conditions-Grows m₁ h slice.keeps) in
      record {
        reads = read_eq m m c _ _ (meta.reads m.texts c.finalizers) slice.reads;
        original = claim_stays m (record m₁ { conditions = h }) c g used;
        grows = g;
        fresh = (meta.fresh m.texts c.finalizers, slice.fresh);
        used = (meta.within m.texts c.finalizers, slice.used);
      }

  pub claim-IsDeep : IsMetaCopy copy_meta → IsDeep claim_kind
  claim-IsDeep meta = record {
    imp = λ P Q imp m c h. (
      OfSlice-imp (P texts) (Q texts) (imp texts) c.finalizers h.0,
      OfSlice-imp (P conditions) (Q conditions) (imp conditions) c.status.conditions h.1,
    );
    stays = claim_stays;
    moves = λ P m m' c g used h. h;
    copies = λ m c. claim_copies m c meta;
  }

pub claim_store-IsStore : IsStore claim_store claims
claim_store-IsStore = record {
  next_get = λ m. refl;
  get_put = λ m h. refl;
  put_grows = claims-Grows;
  grows_get = λ m m' g. g.claims;
}
