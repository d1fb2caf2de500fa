-- ===== src/ModelCost/Tests.antt =====
-- Runs of the cost ledger, and the theorems at them.
use mox_adv.Prelude.{◌+◌, ◌≤◌, ◌≡◌, refl, true, false, List, [], ◌∷◌, some}
use mox_adv.Prelude.Json.{int}
use mox_adv.ModelCost.{
  Configuration, ModelCostReservation, ProviderMetadata, Ledger, ok, rejected, configure, natural,
  limit_exhausted, synthetic_input_invalid, initialize, configuration_changed,
}
use mox_adv.ModelCost.Calls.{
  settle, fail, reserve, usage, reserve_call, new_call, record_synthetic_cost,
}
use mox_adv.ModelCost.Budget.{within_limit}
use mox_adv.ModelCost.Settlement.{is_settled, settled_once}
use mox_adv.ModelCost.Trace.{Call, reserving, settling, failing, run, start}

abbrev config : Configuration
config = record {
  limit = 1000;
  warning_percent = 80;
  percent_scale = 1;
  exchange_rate = 2;
  tariffs = record { provider = "p"; model_id = "m"; input_rate = 3; output_rate = 5 } ∷ [];
}

abbrev reported : ProviderMetadata
reported = record {
  provider = "p";
  model_id = "m";
  input_tokens = int 10;
  output_tokens = int 20;
  cost = 0;
  duration_ms = 7;
}

abbrev calls : List Call
calls =
    reserving "a" "p" "m" (int 50) (int 50)
    ∷ reserving "b" "p" "m" (int 20) (int 10)
    ∷ settling "a" reported
    ∷ reserving "c" "p" "m" (int 20) (int 10)
    ∷ failing "b" "MODEL_PROVIDER_FAILED"
    ∷ []

configured : configure config ≡ ok config
unfolding configure
configured = refl

-- 50 tokens each way reserve 800; a second call for 220 does not fit until the first is settled at 260.
after_calls : usage config (run config calls start).ledger ≡ record {
  charged_cost = 260;
  reserved_cost = 220;
  call_count = 2;
  warning = false;
  exhausted = false;
}
unfolding run usage natural reserve_call
after_calls = refl

refused_call :
    (reserve config "b" "p" "m" (int 20) (int 10) (new_call "a" "p" "m" 50 50 800 ∷ [])).0
    ≡ rejected limit_exhausted
unfolding reserve natural reserve_call
refused_call = refl

unnamed_call : (record_synthetic_cost "" 3 []).0 ≡ rejected synthetic_input_invalid
unfolding record_synthetic_cost
unnamed_call = refl

changed_configuration : (initialize "x" "h" (some ("y", "h"))).0 ≡ rejected configuration_changed
unfolding initialize
changed_configuration = refl

within_limit_example :
    (usage config (run config calls start).ledger).charged_cost
      + (usage config (run config calls start).ledger).reserved_cost
    ≤ config.limit
within_limit_example = within_limit config calls

abbrev issued_a : ModelCostReservation
issued_a = record {
  reservation_id = "a";
  provider = "p";
  model_id = "m";
  maximum_input_tokens = 50;
  maximum_output_tokens = 50;
  reserved_cost = 800;
  warning = true;
}

abbrev reserved_a : Ledger
reserved_a = new_call "a" "p" "m" 50 50 800 ∷ []

abbrev settled_a : Ledger
settled_a = (settle config issued_a reported reserved_a).1

settled_once_example :
    (is_settled (settle config issued_a reported settled_a).0 ≡ false)
    × ((settle config issued_a reported settled_a).1 ≡ settled_a)
    × (fail "a" "MODEL_PROVIDER_FAILED" settled_a ≡ settled_a)
unfolding settle natural
settled_once_example =
    settled_once config issued_a reported reported "MODEL_PROVIDER_FAILED" reserved_a refl
