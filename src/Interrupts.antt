-- ===== src/Interrupts.antt =====
-- src/mox_adv/interrupt_state.py: the sidecar database of revoke and kill-switch signals.
use mox_adv.Prelude.{
  ℕ, String, Bool, true, false, ◌&&◌, ◌||◌, Option, none, some, List, [], ◌∷◌, ◌==◌, concat_text,
  if◌then◌else◌,
}
use mox_adv.Table.{any_row, update_rows}

pub record Signal : Type 0 where
  pub kind : String
  pub scope : String
  pub active : Bool
  pub reason : String
  pub updated_at : ℕ

-- `available` tells whether the sidecar file can be opened: where it cannot, every access raises
-- `InterruptStateUnavailable`.
pub record DurableInterruptState : Type 0 where
  pub signals : List Signal
  pub available : Bool

abbrev pub is_signal : String → String → Signal → Bool
is_signal kind scope row = row.kind == kind && row.scope == scope

-- `scope IN (…)`
abbrev pub is_one_of : String → List String → Bool
is_one_of scope [] = false
is_one_of scope (s ∷ scopes) = scope == s || is_one_of scope scopes

abbrev pub is_active_signal : String → List String → Signal → Bool
is_active_signal kind scopes row = row.kind == kind && (row.active && is_one_of row.scope scopes)

-- INSERT … ON CONFLICT(kind, scope) DO UPDATE
unfoldable pub set_signal :
    String → String → Bool → String → ℕ → DurableInterruptState → Option DurableInterruptState
set_signal kind scope active reason now state =
    if state.available
    then some (record state {
      signals =
          if any_row (is_signal kind scope) state.signals
          then update_rows (is_signal kind scope)
              (λ row. record row { active = active; reason = reason; updated_at = now })
              state.signals
          else record {
            kind = kind;
            scope = scope;
            active = active;
            reason = reason;
            updated_at = now;
          }
            ∷ state.signals;
    })
    else none

unfoldable pub engage :
    String → String → String → ℕ → DurableInterruptState → Option DurableInterruptState
unfolding set_signal
engage kind scope reason now state = set_signal kind scope true reason now state

unfoldable pub release :
    String → String → String → ℕ → DurableInterruptState → Option DurableInterruptState
unfolding set_signal
release kind scope reason now state = set_signal kind scope false reason now state

-- `none` is the exception; with no scope nothing is read.
unfoldable pub any_active : String → List String → DurableInterruptState → Option Bool
any_active kind [] state = some false
any_active kind (scope ∷ scopes) state =
    if state.available
    then some (any_row (is_active_signal kind (scope ∷ scopes)) state.signals)
    else none

unfoldable pub kill_switch_scopes : String → String → String → List String
kill_switch_scopes organization connection campaign =
    "global"
    ∷ concat_text "organization:" organization
    ∷ concat_text "connection:" connection
    ∷ concat_text "campaign:" campaign
    ∷ []
