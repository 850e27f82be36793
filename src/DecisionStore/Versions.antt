-- ===== src/DecisionStore/Versions.antt =====
-- The version number of the current decision.
use vi_xauusd.Prelude.{
  if◌then◌else◌, Bool-cases, Option-cases, length, length-append, ℕ, ◌+◌, ◌≤◌, ◌≡◌, refl, ap, inl,
  inr, true, false, not, ◌&&◌, Option, none, some, List, [], ◌∷◌, arith, str_eq,
}
use vi_xauusd.DecisionStore.{
  Decision, Stored, p1, Store, Context, is_out_of_order, stamped, stored_row, payload_of,
  atomic_publish_canonical_snapshot,
}

abbrev pub version_of : Option Stored → ℕ
version_of none = 0
version_of (some row) = row.row_version

-- The row, its payload and the monitor describe the same snapshot, whose id is the digest of its
-- version and signature.
pub record IsCoherent (x : Context) (s : Store) (row : Stored) : Type 0 where
  pub is_current : s.current ≡ some row
  pub same_id : row.row_decision_id ≡ row.payload.decision_id
  pub same_version : row.row_version ≡ row.payload.decision_version
  pub same_signature : row.row_signature ≡ row.payload.signature
  pub same_time : row.row_candle ≡ row.payload.candle
  pub is_digest : row.row_decision_id ≡ x.digest row.row_version row.row_signature
  pub is_monitored : s.monitor ≡ some row.payload

-- Whatever was stored before, a snapshot that is accepted is afterwards the current one: row,
-- payload and monitor agree on it, it has the signature that was published, and its id is the digest
-- of its version and signature.
pub publish-IsCoherent :
    (x : Context) (s : Store) (d : Decision)
    → (atomic_publish_canonical_snapshot x s d).1 ≡ true
    → (row : Stored) × IsCoherent x (atomic_publish_canonical_snapshot x s d).2 row
      × (row.row_signature ≡ d.signature)
unfolding atomic_publish_canonical_snapshot
publish-IsCoherent x s d ok = elim (Bool-cases (payload_of s.current d)) [
  | inl e ↦ absurd (ground arith)
  | inr e ↦ (
    stored_row (stamped x s.current d),
    rw e (record {
      is_current = refl;
      same_id = refl;
      same_version = refl;
      same_signature = refl;
      same_time = refl;
      is_digest = refl;
      is_monitored = refl;
    }),
    refl,
  )
]

-- The version goes up by one exactly if the snapshot is accepted and its signature is not that of
-- the current decision, and otherwise stays.
pub version-publish :
    (x : Context) (s : Store) (d : Decision) (row : Stored)
    → s.current ≡ some row
    → version_of (atomic_publish_canonical_snapshot x s d).2.current ≡ (
        if (atomic_publish_canonical_snapshot x s d).1 && not (str_eq d.signature row.row_signature)
        then row.row_version + 1
        else row.row_version)
unfolding atomic_publish_canonical_snapshot
version-publish x s d row e = simp e (elim (Bool-cases (is_out_of_order d row.payload)) [
  | inl late ↦ simp late
  | inr ok ↦ simp ok (ground arith)
])

-- A snapshot that is refused as out of order changes neither the current decision nor the monitor nor
-- any notification, and is recorded as one conflict.
pub publish-refused :
    (x : Context) (s : Store) (d : Decision)
    → (atomic_publish_canonical_snapshot x s d).1 ≡ false
    → let t = (atomic_publish_canonical_snapshot x s d).2 in
      (t.current ≡ s.current)
      × (t.monitor ≡ s.monitor)
      × (t.notifications ≡ s.notifications)
      × (length t.conflicts ≡ length s.conflicts + 1)
unfolding atomic_publish_canonical_snapshot
publish-refused x s d no_use = elim (Bool-cases (payload_of s.current d)) [
  | inl e ↦ rw e (
    refl,
    refl,
    refl,
    length-append s.conflicts (record { kind = "OUT_OF_ORDER_DECISION"; severity = p1 } ∷ []),
  )
  | inr e ↦ absurd (ground arith)
]

pub publish_all : Context → Store → List Decision → Store
publish_all x s [] = s
publish_all x s (d ∷ ds) = publish_all x (atomic_publish_canonical_snapshot x s d).2 ds

version-step :
    (x : Context) (s : Store) (d : Decision)
    → version_of s.current ≤ version_of (atomic_publish_canonical_snapshot x s d).2.current
version-step x s d = elim (Option-cases s.current) [
  | inl e ↦ rw e (omega arith)
  | inr (row, e) ↦ ground (arith, version-publish x s d row e, ap version_of e)
]

-- Over any sequence of published snapshots, accepted or refused, the version never goes down.
pub version-publish_all :
    (x : Context) (s : Store) (ds : List Decision)
    → version_of s.current ≤ version_of (publish_all x s ds).current
unfolding publish_all
version-publish_all x s [] = omega arith
version-publish_all x s (d ∷ ds) = omega (
  arith,
  version-step x s d,
  version-publish_all x (atomic_publish_canonical_snapshot x s d).2 ds,
)
