-- ===== src/DeepCopy/Growth.antt =====
-- Memory that grows: what was in use stays as it was.
use capa_eni_controller.Prelude.{ℕ, String, ◌<◌, ◌≤◌, ◌≡◌, refl, ◌∙◌, arith}
use capa_eni_controller.Api.Meta.{Condition}
use capa_eni_controller.Api.Pool.{EniReference}
use capa_eni_controller.Slices.{Heap}
use capa_eni_controller.DeepCopy.{Memory, ObservationCells, Pointers, ClaimCells, PoolCells}

module _ {A : Type 0} where
  pub record Keeps (h h' : Heap A) : Type 0 where
    pub grows : h.next ≤ h'.next
    pub cells : (a : ℕ) → a < h.next → h'.cells a ≡ h.cells a

  pub Keeps-refl : (h : Heap A) → Keeps h h
  Keeps-refl h = record { grows = omega arith; cells = λ a below. refl }

  pub Keeps-trans : (h h' h'' : Heap A) → Keeps h h' → Keeps h' h'' → Keeps h h''
  Keeps-trans h h' h'' k l = record {
    grows = omega (arith, k.grows, l.grows);
    cells = λ a below. l.cells a (omega (arith, k.grows, below)) ∙ k.cells a below;
  }

-- The parts of the memory, and the first reference of each that is not in use.
pub data Part : Type 0 where
  texts conditions references observations pointers claims pools : Part

abbrev pub next : Memory → Part → ℕ
next m texts = m.texts.next
next m conditions = m.conditions.next
next m references = m.references.next
next m observations = m.observations.next
next m pointers = m.pointers.next
next m claims = m.claims.next
next m pools = m.pools.next

pub record Grows (m m' : Memory) : Type 0 where
  pub texts : Keeps m.texts m'.texts
  pub conditions : Keeps m.conditions m'.conditions
  pub references : Keeps m.references m'.references
  pub observations : Keeps m.observations m'.observations
  pub pointers : Keeps m.pointers m'.pointers
  pub claims : Keeps m.claims m'.claims
  pub pools : Keeps m.pools m'.pools

pub Grows-refl : (m : Memory) → Grows m m
Grows-refl m = record {
  texts = Keeps-refl m.texts;
  conditions = Keeps-refl m.conditions;
  references = Keeps-refl m.references;
  observations = Keeps-refl m.observations;
  pointers = Keeps-refl m.pointers;
  claims = Keeps-refl m.claims;
  pools = Keeps-refl m.pools;
}

pub Grows-trans : (m m' m'' : Memory) → Grows m m' → Grows m' m'' → Grows m m''
Grows-trans m m' m'' k l = record {
  texts = Keeps-trans m.texts m'.texts m''.texts k.texts l.texts;
  conditions = Keeps-trans m.conditions m'.conditions m''.conditions k.conditions l.conditions;
  references = Keeps-trans m.references m'.references m''.references k.references l.references;
  observations =
      Keeps-trans m.observations m'.observations m''.observations k.observations l.observations;
  pointers = Keeps-trans m.pointers m'.pointers m''.pointers k.pointers l.pointers;
  claims = Keeps-trans m.claims m'.claims m''.claims k.claims l.claims;
  pools = Keeps-trans m.pools m'.pools m''.pools k.pools l.pools;
}

pub Grows-next : (m m' : Memory) (p : Part) → Grows m m' → next m p ≤ next m' p
Grows-next m m' texts g = g.texts.grows
Grows-next m m' conditions g = g.conditions.grows
Grows-next m m' references g = g.references.grows
Grows-next m m' observations g = g.observations.grows
Grows-next m m' pointers g = g.pointers.grows
Grows-next m m' claims g = g.claims.grows
Grows-next m m' pools g = g.pools.grows

-- One part grows.
pub texts-Grows :
    (m : Memory) (h : Heap String) → Keeps m.texts h → Grows m (record m { texts = h })
texts-Grows m h keeps = record {
  texts = keeps;
  conditions = Keeps-refl m.conditions;
  references = Keeps-refl m.references;
  observations = Keeps-refl m.observations;
  pointers = Keeps-refl m.pointers;
  claims = Keeps-refl m.claims;
  pools = Keeps-refl m.pools;
}

pub conditions-Grows :
    (m : Memory) (h : Heap Condition) → Keeps m.conditions h → Grows m (record m { conditions = h })
conditions-Grows m h keeps = record {
  texts = Keeps-refl m.texts;
  conditions = keeps;
  references = Keeps-refl m.references;
  observations = Keeps-refl m.observations;
  pointers = Keeps-refl m.pointers;
  claims = Keeps-refl m.claims;
  pools = Keeps-refl m.pools;
}

pub references-Grows :
    (m : Memory) (h : Heap EniReference)
    → Keeps m.references h
    → Grows m (record m { references = h })
references-Grows m h keeps = record {
  texts = Keeps-refl m.texts;
  conditions = Keeps-refl m.conditions;
  references = keeps;
  observations = Keeps-refl m.observations;
  pointers = Keeps-refl m.pointers;
  claims = Keeps-refl m.claims;
  pools = Keeps-refl m.pools;
}

pub observations-Grows :
    (m : Memory) (h : Heap ObservationCells)
    → Keeps m.observations h
    → Grows m (record m { observations = h })
observations-Grows m h keeps = record {
  texts = Keeps-refl m.texts;
  conditions = Keeps-refl m.conditions;
  references = Keeps-refl m.references;
  observations = keeps;
  pointers = Keeps-refl m.pointers;
  claims = Keeps-refl m.claims;
  pools = Keeps-refl m.pools;
}

pub pointers-Grows :
    (m : Memory) (h : Pointers) → Keeps m.pointers h → Grows m (record m { pointers = h })
pointers-Grows m h keeps = record {
  texts = Keeps-refl m.texts;
  conditions = Keeps-refl m.conditions;
  references = Keeps-refl m.references;
  observations = Keeps-refl m.observations;
  pointers = keeps;
  claims = Keeps-refl m.claims;
  pools = Keeps-refl m.pools;
}

pub claims-Grows :
    (m : Memory) (h : Heap ClaimCells) → Keeps m.claims h → Grows m (record m { claims = h })
claims-Grows m h keeps = record {
  texts = Keeps-refl m.texts;
  conditions = Keeps-refl m.conditions;
  references = Keeps-refl m.references;
  observations = Keeps-refl m.observations;
  pointers = Keeps-refl m.pointers;
  claims = keeps;
  pools = Keeps-refl m.pools;
}

pub pools-Grows :
    (m : Memory) (h : Heap PoolCells) → Keeps m.pools h → Grows m (record m { pools = h })
pools-Grows m h keeps = record {
  texts = Keeps-refl m.texts;
  conditions = Keeps-refl m.conditions;
  references = Keeps-refl m.references;
  observations = Keeps-refl m.observations;
  pointers = Keeps-refl m.pointers;
  claims = Keeps-refl m.claims;
  pools = keeps;
}
