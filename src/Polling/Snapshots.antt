-- ===== src/Polling/Snapshots.antt =====
-- The snapshots that src/mox_adv/monitoring.py stores: how they are numbered, and that they stay.
use mox_adv.Prelude.{
  ℕ, ◌+◌, ◌≡◌, refl, subst, String, Bool, false, none, List, [], ◌∷◌, arith, Bool-cases,
  Option-cases, inl, inr, ◌==◌, eq_iff,
}
use mox_adv.Prelude.Json.{Json}
use mox_adv.Table.{count_rows, any_row, first_row}
use mox_adv.Polling.{SnapshotRow, Snapshot, done, max_version, is_snapshot, load_snapshot_bytes}
use mox_adv.Polling.Persist.{persist-cases, save_snapshot, series_key_of}
use mox_adv.Polling.Trace.{Call, claiming, beating, releasing, persisting, World, step, run, empty}

abbrev pub in_series : String → SnapshotRow → Bool
in_series key row = row.series_key == key

-- Each snapshot, the newest first, has an id that no older one has, and a version one more than the
-- number of the older snapshots of its series.
abbrev pub Numbered : List SnapshotRow → Type 0
Numbered [] = Unit
Numbered (row ∷ rows) =
    (any_row (is_snapshot row.snapshot_id) rows ≡ false)
    × (row.version ≡ count_rows (in_series row.series_key) rows + 1)
    × Numbered rows

max_version-count :
    (key : String) (rows : List SnapshotRow)
    → Numbered rows
    → max_version key rows ≡ count_rows (in_series key) rows
unfolding max_version
max_version-count key [] h = refl
max_version-count key (row ∷ rows) h = elim (Bool-cases (in_series key row)) [
  | inl e ↦
      let v : row.version ≡ count_rows (in_series key) rows + 1 =
        subst (λ k. row.version ≡ count_rows (in_series k) rows + 1)
          ((eq_iff row.series_key key).0 e) h.1 in
      ground (arith, max_version-count key rows h.2)
  | inr e ↦ ground (arith, max_version-count key rows h.2)
]

first-any :
    (id : String) (rows : List SnapshotRow)
    → first_row (is_snapshot id) rows ≡ none
    → any_row (is_snapshot id) rows ≡ false
first-any id [] h = refl
first-any id (row ∷ rows) h = ground (arith, first-any id rows)

module _ (canonical_bytes : Json → String) (sha256 : String → String) where
  save-Numbered :
      (s : Snapshot) (rows : List SnapshotRow)
      → Numbered rows
      → Numbered (save_snapshot canonical_bytes sha256 s rows).1
  unfolding save_snapshot
  save-Numbered s rows h = elim (Option-cases (first_row (is_snapshot s.snapshot_id) rows)) [
    | inl e ↦
        rw (save_snapshot, e)
          (
            first-any s.snapshot_id rows e,
            omega (arith, max_version-count (series_key_of canonical_bytes sha256 s) rows h),
            h,
          )
    | inr (row, e) ↦ elim (Bool-cases (row.canonical_bytes == canonical_bytes s.document)) [
      | inl f ↦ rw (save_snapshot, e, f) h
      | inr f ↦ rw (save_snapshot, e, f) h
    ]
  ]

  save-load :
      (s : Snapshot) (id bytes : String) (rows : List SnapshotRow)
      → load_snapshot_bytes id rows ≡ done bytes
      → load_snapshot_bytes id (save_snapshot canonical_bytes sha256 s rows).1 ≡ done bytes
  unfolding save_snapshot load_snapshot_bytes
  save-load s id bytes rows h = elim (Option-cases (first_row (is_snapshot s.snapshot_id) rows)) [
    | inl e ↦ elim (Bool-cases (s.snapshot_id == id)) [
      | inl same ↦
          let gone : first_row (is_snapshot id) rows ≡ none =
            subst (λ i. first_row (is_snapshot i) rows ≡ none) ((eq_iff s.snapshot_id id).0 same)
              e in
          ground arith
      | inr other ↦ rw (save_snapshot, e) (ground arith)
    ]
    | inr (row, e) ↦ elim (Bool-cases (row.canonical_bytes == canonical_bytes s.document)) [
      | inl f ↦ rw (save_snapshot, e, f) h
      | inr f ↦ rw (save_snapshot, e, f) h
    ]
  ]

  module _ (interval lease_timeout : ℕ) where
    -- A property of the stored snapshots that `save_snapshot` keeps is kept by every call.
    keeps :
        (P : List SnapshotRow → Type 0)
        → ((s : Snapshot) (rows : List SnapshotRow)
            → P rows
            → P (save_snapshot canonical_bytes sha256 s rows).1)
        → (calls : List Call) (w : World) → P w.state.snapshots
        → P (run canonical_bytes sha256 interval lease_timeout calls w).state.snapshots
    unfolding run step
    keeps P saving [] w h = h
    keeps P saving (claiming token now ∷ calls) w h =
        keeps P saving calls
          (step canonical_bytes sha256 interval lease_timeout (claiming token now) w) h
    keeps P saving (beating claim now ∷ calls) w h =
        keeps P saving calls
          (step canonical_bytes sha256 interval lease_timeout (beating claim now) w) h
    keeps P saving (releasing claim ∷ calls) w h =
        keeps P saving calls
          (step canonical_bytes sha256 interval lease_timeout (releasing claim) w) h
    keeps P saving (persisting claim s reasons now ∷ calls) w h =
        keeps P saving calls
          (step canonical_bytes sha256 interval lease_timeout (persisting claim s reasons now) w)
          (elim (persist-cases canonical_bytes sha256 claim s reasons now w.state) [
            | inl e ↦ rw e h
            | inr (after, _, _, e) ↦ rw e (saving s w.state.snapshots h)
          ])

    -- After any calls on an empty store the snapshots have distinct ids, and those of each series are
    -- numbered 1, 2, 3 … in the order in which they were saved.
    pub numbered :
        (calls : List Call)
        → Numbered (run canonical_bytes sha256 interval lease_timeout calls empty).state.snapshots
    numbered calls = keeps Numbered save-Numbered calls empty tt

    -- The bytes of a stored snapshot never change: what `load_snapshot_bytes` returns for an id once, it
    -- returns after any further calls, those included that save a snapshot of that id again.
    pub snapshot_stays :
        (calls : List Call) (w : World) (id bytes : String)
        → load_snapshot_bytes id w.state.snapshots ≡ done bytes
        → load_snapshot_bytes id
            (run canonical_bytes sha256 interval lease_timeout calls w).state.snapshots
          ≡ done bytes
    snapshot_stays calls w id bytes h =
        keeps (λ rows. load_snapshot_bytes id rows ≡ done bytes) (λ s. save-load s id bytes) calls w
          h
