-- ===== src/Mandate/History/Statements.antt =====
-- How the statements of src/mox_adv/mandate_store.py extend the history of a mandate.
use mox_adv.Prelude.{
  ℕ, ◌+◌, ◌≡◌, refl, subst, ap, String, Bool, true, false, some, List, [], ◌∷◌, ◌==◌, eq_iff, ◌⊎◌,
  Bool-cases, inl, inr, arith,
}
use mox_adv.Table.{first_row, count_rows, update_rows}
use mox_adv.Mandate.{
  MandateStatus, issued, active, revoked, MandateRow, EventRow, EventType, was_activated,
  was_revoked,
}
use mox_adv.Mandate.History.{log, is_about, IsTold, IsNumbered}
use mox_adv.Mandate.Lifecycle.{set_active, set_revoked}
use mox_adv.Mandate.Records.{is_mandate, is_in_force, is_revoked, last_version}
use mox_adv.Mandate.Results.{some-injective}

pub status-cases :
    (status : MandateStatus) → (status ≡ issued) ⊎ ((status ≡ active) ⊎ (status ≡ revoked))
status-cases issued = inl refl
status-cases active = inr (inl refl)
status-cases revoked = inr (inr refl)

pub told-active :
    (row : MandateRow) (now : ℕ) (events : List EventType)
    → is_revoked row.status ≡ false
    → is_in_force row.status ≡ false
    → IsTold (some row) events
    → IsTold (some (set_active (row.activation_version + 1) now row)) (was_activated ∷ events)
told-active row now events alive idle told = elim (status-cases row.status) [
  | inl e ↦
      let (same, versions) = (rw e at told) in
      let first : row.activation_version ≡ 0 = versions.0 in
      (ap (λ l. was_activated ∷ l) same, (omega arith, versions.1))
  | inr (inl e) ↦ let no = (rw e at idle) in cc
  | inr (inr e) ↦ let no = (rw e at alive) in cc
]

pub told-revoked :
    (row : MandateRow) (now : ℕ) (reason : String) (events : List EventType)
    → is_revoked row.status ≡ false
    → IsTold (some row) events
    → IsTold (some (set_revoked (row.revocation_version + 1) now reason row)) (was_revoked ∷ events)
told-revoked row now reason events alive told = elim (status-cases row.status) [
  | inl e ↦
      let (same, versions) = (rw e at told) in
      let first : row.activation_version ≡ 0 = versions.0 in
      let none_yet : row.revocation_version ≡ 0 = versions.1 in
      rw (first, none_yet) (ap (λ l. was_revoked ∷ l) same, (omega arith, refl))
  | inr (inl e) ↦
      let (same, versions) = (rw e at told) in
      let first : row.activation_version ≡ 1 = versions.0 in
      let none_yet : row.revocation_version ≡ 0 = versions.1 in
      rw (first, none_yet) (ap (λ l. was_revoked ∷ l) same, (omega arith, refl))
  | inr (inr e) ↦ let no = (rw e at alive) in cc
]

-- The number of a new event.
pub numbered-last :
    (id : String) (events : List EventRow)
    → IsNumbered events
    → last_version id events ≡ count_rows (is_about id) events
numbered-last id [] h = refl
numbered-last id (event ∷ events) (h, hs) = elim (Bool-cases (event.mandate_id == id)) [
  | inl e ↦
      let same = (eq_iff event.mandate_id id).0 e in
      let version : event.event_version ≡ count_rows (is_about id) events + 1 =
        subst (λ n. event.event_version ≡ count_rows (is_about n) events + 1) same h in
      let rest = numbered-last id events hs in rw (e, rest) (ground arith)
  | inr e ↦ rw (e) (numbered-last id events hs)
]

pub log-count :
    (id : String) (events : List EventRow)
    → log id events ≡ []
    → count_rows (is_about id) events ≡ 0
log-count id [] h = refl
log-count id (event ∷ events) h = elim (Bool-cases (event.mandate_id == id)) [
  | inl e ↦ ground arith
  | inr e ↦ rw e (log-count id events (rw e at h))
]

-- An UPDATE writes the first row of a mandate that it selects, and none of another mandate.
pub first-updated :
    (id : String) (p : MandateRow → Bool) (f : MandateRow → MandateRow) (rows : List MandateRow)
    (row : MandateRow)
    → ((r : MandateRow) → (f r).mandate_id ≡ r.mandate_id)
    → p row ≡ true
    → first_row (is_mandate id) rows ≡ some row
    → first_row (is_mandate id) (update_rows p f rows) ≡ some (f row)
first-updated id p f [] row keeps h found = ground arith
first-updated id p f (other ∷ rows) row keeps h found = elim (Bool-cases (other.mandate_id == id)) [
  | inl e ↦
      let same : other ≡ row = some-injective other row (ground arith) in
      rw (same, h) (rw (keeps row, subst (λ r. (r.mandate_id == id) ≡ true) same e) refl)
  | inr e ↦ elim (Bool-cases (p other)) [
    | inl d ↦ rw (d, keeps other, e) (first-updated id p f rows row keeps h (ground arith))
    | inr d ↦ rw (d, e) (first-updated id p f rows row keeps h (ground arith))
  ]
]

pub first-untouched :
    (id : String) (p : MandateRow → Bool) (f : MandateRow → MandateRow) (rows : List MandateRow)
    → ((r : MandateRow) → (f r).mandate_id ≡ r.mandate_id)
    → ((r : MandateRow) → (r.mandate_id == id) ≡ true → p r ≡ false)
    → first_row (is_mandate id) (update_rows p f rows) ≡ first_row (is_mandate id) rows
first-untouched id p f [] keeps h = refl
first-untouched id p f (other ∷ rows) keeps h = elim (Bool-cases (other.mandate_id == id)) [
  | inl e ↦ rw (h other e, e) refl
  | inr e ↦ elim (Bool-cases (p other)) [
    | inl d ↦ rw (d, keeps other, e) (first-untouched id p f rows keeps h)
    | inr d ↦ rw (d, e) (first-untouched id p f rows keeps h)
  ]
]
