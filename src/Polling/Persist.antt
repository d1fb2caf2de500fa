-- ===== src/Polling/Persist.antt =====
-- `persist_poll` of src/mox_adv/monitoring.py, one transaction: any failure leaves the state.
use mox_adv.Prelude.{
  ℕ, ◌+◌, String, true, false, none, some, List, [], ◌∷◌, ◌==◌, concat_text, ◌≡◌, refl, ◌⊎◌, inl,
  inr, Bool-cases, Option-cases, if◌then◌else◌,
}
use mox_adv.Prelude.Json.{Json}
use mox_adv.Prelude.Text.{take}
use mox_adv.Table.{first_row, any_row}
use mox_adv.Polling.{
  PollClaim, PollRow, SnapshotRow, ProposalRow, MonitoringState, SnapshotVersion, ActiveProposal,
  Snapshot, StoreFailure, claim_lost, snapshot_changed, integrity_error, StoreResult, done, failed,
  require_claim, complete, max_version, is_snapshot, is_active_for, has_proposal_id,
  series_identity,
}

StoreResult-cases :
    {A : Type 0} (r : StoreResult A)
    → ((e : StoreFailure) × (r ≡ failed e)) ⊎ ((x : A) × (r ≡ done x))
StoreResult-cases (failed e) = inl (e, refl)
StoreResult-cases (done x) = inr (x, refl)

module _ (canonical_bytes : Json → String) (sha256 : String → String) where
  abbrev pub series_key_of : Snapshot → String
  series_key_of s = concat_text "sha256:" (sha256 (canonical_bytes (series_identity s)))

  unfoldable pub save_snapshot :
      Snapshot → List SnapshotRow → StoreResult SnapshotVersion × List SnapshotRow
  unfolding max_version
  save_snapshot s rows = elim (first_row (is_snapshot s.snapshot_id) rows) [
    | some row ↦
        if row.canonical_bytes == canonical_bytes s.document
        then (
          done (record { snapshot_id = s.snapshot_id; version = row.version; deduplicated = true }),
          rows,
        )
        else (failed snapshot_changed, rows)
    | none ↦
        let version = max_version (series_key_of s) rows + 1 in
        (
          done (record { snapshot_id = s.snapshot_id; version = version; deduplicated = false }),
          record {
            snapshot_id = s.snapshot_id;
            series_key = series_key_of s;
            version = version;
            canonical_bytes = canonical_bytes s.document;
          }
              ∷ rows,
        )
  ]

  abbrev pub proposal_id_of : String → String → String
  proposal_id_of id reason =
      concat_text "monitoring-proposal-"
        (take 24 (sha256 (concat_text id (concat_text "\0" reason))))

  unfoldable pub active_proposal :
      String → String → ℕ → List ProposalRow → StoreResult ActiveProposal × List ProposalRow
  unfolding take
  active_proposal id reason now rows = elim (first_row (is_active_for id reason) rows) [
    | some row ↦ (
      done (record {
        proposal_id = row.proposal_id;
        snapshot_id = id;
        reason_code = reason;
        created_at = row.created_at;
        deduplicated = true;
      }),
      rows,
    )
    | none ↦
        if any_row (has_proposal_id (proposal_id_of id reason)) rows
        then (failed integrity_error, rows)
        else (
          done (record {
            proposal_id = proposal_id_of id reason;
            snapshot_id = id;
            reason_code = reason;
            created_at = now;
            deduplicated = false;
          }),
          record {
            proposal_id = proposal_id_of id reason;
            snapshot_id = id;
            reason_code = reason;
            created_at = now;
            active = true;
          }
              ∷ rows,
        )
  ]

  abbrev cons_proposal :
      ActiveProposal
      → StoreResult (List ActiveProposal) × List ProposalRow
      → StoreResult (List ActiveProposal) × List ProposalRow
  cons_proposal p (done ps, rows) = (done (p ∷ ps), rows)
  cons_proposal p (failed e, rows) = (failed e, rows)

  unfoldable pub active_proposals :
      String
      → List String
      → ℕ
      → List ProposalRow
      → StoreResult (List ActiveProposal) × List ProposalRow
  unfolding active_proposal
  active_proposals id [] now rows = (done [], rows)
  active_proposals id (reason ∷ reasons) now rows =
      let (r, after) = active_proposal id reason now rows in
      let rest = active_proposals id reasons now after in
      elim r [ failed e ↦ (failed e, rows) | done p ↦ cons_proposal p rest ]

  unfoldable pub persist_poll :
      PollClaim
      → Snapshot
      → List String
      → ℕ
      → MonitoringState
      → StoreResult (SnapshotVersion × List ActiveProposal) × MonitoringState
  unfolding save_snapshot active_proposals require_claim complete
  persist_poll claim s reasons completed_at state =
      let (saved, snapshots) = save_snapshot s state.snapshots in
      let (made, rows) = active_proposals s.snapshot_id reasons completed_at state.proposals in
      if require_claim claim completed_at state.scheduler
      then elim saved [
        | failed e ↦ (failed e, state)
        | done version ↦ elim made [
          | failed e ↦ (failed e, state)
          | done proposals ↦ elim (complete claim completed_at state.scheduler) [
            | none ↦ (failed claim_lost, state)
            | some scheduler ↦ (
              done (version, proposals),
              record { scheduler = some scheduler; snapshots = snapshots; proposals = rows },
            )
          ]
        ]
      ]
      else (failed claim_lost, state)

  -- What `persist_poll` leaves: the state as it was, or what its three statements make of it.
  pub persist-cases :
      (claim : PollClaim) (s : Snapshot) (reasons : List String) (now : ℕ) (state : MonitoringState)
      → ((persist_poll claim s reasons now state).1 ≡ state)
        ⊎ ((after : PollRow) × (require_claim claim now state.scheduler ≡ true)
            × (complete claim now state.scheduler ≡ some after)
            × ((persist_poll claim s reasons now state).1 ≡ record {
              scheduler = some after;
              snapshots = (save_snapshot s state.snapshots).1;
              proposals = (active_proposals s.snapshot_id reasons now state.proposals).1;
            }))
  unfolding persist_poll
  persist-cases claim s reasons now state =
      elim (Bool-cases (require_claim claim now state.scheduler)) [
        | inr e ↦ inl (rw (persist_poll, e) refl)
        | inl e ↦ elim (StoreResult-cases (save_snapshot s state.snapshots).0) [
          | inl (x, f) ↦ inl (rw (persist_poll, e, f) refl)
          | inr (version, f) ↦
              elim (StoreResult-cases
                (active_proposals s.snapshot_id reasons now state.proposals).0) [
                  | inl (x, g) ↦ inl (rw (persist_poll, e, f, g) refl)
                  | inr (made, g) ↦ elim (Option-cases (complete claim now state.scheduler)) [
                    | inl c ↦ inl (rw (persist_poll, e, f, g, c) refl)
                    | inr (after, c) ↦ inr (after, e, c, rw (persist_poll, e, f, g, c) refl)
                  ]
                ]
        ]
      ]
