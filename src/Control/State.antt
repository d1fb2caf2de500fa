-- ===== src/Control/State.antt =====
-- The durable state of src/mox_adv/control_state.py and the monad of its methods.
use mox_adv.Prelude.{List}
use mox_adv.Interrupts.{DurableInterruptState}
use mox_adv.Control.Reason.{ReasonCode, Result, ok, rejected}
use mox_adv.Control.Rows.{ApprovalRecord, ExecutionRecord, KillSwitch}

pub record DurableControlState : Type 0 where
  pub approvals : List ApprovalRecord
  pub executions : List ExecutionRecord
  pub kill_switches : List KillSwitch
  pub interrupts : DurableInterruptState

-- A method returns or raises `ControlRejected`, beside the state that it leaves.
abbrev pub Control : Type 0 → Type 0
Control A = DurableControlState → Result A × DurableControlState

abbrev pub pure : {A : Type 0} → A → Control A
pure a s = (ok a, s)

abbrev pub reject : {A : Type 0} → ReasonCode → Control A
reject reason s = (rejected reason, s)

abbrev pub lift : {A : Type 0} → Result A → Control A
lift r s = (r, s)

abbrev pub continue : {A B : Type 0} → Result A → (A → Control B) → Control B
continue (ok a) f s = f a s
continue (rejected reason) f s = (rejected reason, s)

infixl 5 ◌>>=◌ ◌>>◌
abbrev pub ◌>>=◌ : {A B : Type 0} → Control A → (A → Control B) → Control B
◌>>=◌ m f s = let (r, t) = m s in continue r f t

abbrev pub ◌>>◌ : {A B : Type 0} → Control A → Control B → Control B
m >> n = m >>= λ _. n

abbrev keep :
    {A : Type 0}
    → Result A
    → DurableControlState
    → DurableControlState
    → Result A × DurableControlState
keep (ok a) before after = (ok a, after)
keep (rejected reason) before after = (rejected reason, before)

-- A transaction: what raises is rolled back.
abbrev pub transaction : {A : Type 0} → Control A → Control A
transaction m s = let (r, t) = m s in keep r s t
