-- ===== src/Keepers/Transactions/Tests.antt =====
-- A call that costs 1,000 gas with a buffer of a tenth, and one whose simulation reverts.
use optara.Common.{ℕ, ◌≡◌, refl, true, none, some, [], ◌==◌, if◌then◌else◌}
use optara.Keepers.Transactions.{
  ThrownError, TxContext, succeeded, threw, sent, refused, error_of, send_tx, short_error,
  with_gas_buffer,
}

abbrev unhealthy : ThrownError
unhealthy = record {
  reverted = some ("NotHealthy", []);
  signature = none;
  short_message = none;
  message = some "reverted";
  as_text = "";
}

-- The world is the gas limit of the last transaction.
abbrev chain : TxContext ℕ ℕ
chain = record {
  World = ℕ;
  simulate = λ w call. if call == 7 then succeeded 42 else threw unhealthy;
  estimate_gas = λ w call. succeeded 1000;
  write = λ w call gas. (gas, succeeded 9);
  receipt = λ w hash. (w, succeeded true);
  gas_buffer_bps = none;
}

sends_with_buffer : send_tx chain 0 7 ≡ (1100, sent 9 42)
unfolding send_tx with_gas_buffer
sends_with_buffer = refl

sends_no_revert : send_tx chain 0 8 ≡ (0, refused (error_of "NotHealthy" []))
unfolding send_tx short_error
sends_no_revert = refl
