-- ===== src/Sdk/Ledger/Tests.antt =====
-- A scan of three balance updates in chunks of two blocks.
use optara.Common.{
  append_assoc, any, elem, ℕ, zero, suc, ap₂, ◌==◌, ◌-◌, ◌+◌, ◌≡◌, refl, sym, ap, ◌∙◌, some, List,
  [], ◌∷◌, ◌++◌, if◌then◌else◌, arith, get_key, set_key,
}
use optara.Common.Int.{ℤ, pos, negsuc}
use optara.Sdk.Scan.{Scanned, Splits, scan, apply_all}
use optara.Sdk.Ledger.{BalanceLog, Balances, apply_log, sync, holders}
use optara.Sdk.Ledger.Holders.{holds, sync-holders}
use optara.Sdk.Ledger.Rising.{IsRising}
use optara.Sdk.Ledger.Proofs.{balance_in, last_balance, sync-balance_in}

abbrev log_of : ℕ → ℤ → BalanceLog
log_of account_id balance = record { series_id = 5; account_id = account_id; balance = balance }

-- The logs of each block.
abbrev logs_at : ℕ → List BalanceLog
logs_at block =
    if block == 1
    then log_of 7 (pos 3) ∷ []
    else if block == 2
    then log_of 8 (negsuc 2) ∷ []
    else if block == 4
    then log_of 7 (pos 0) ∷ []
    else []

abbrev blocks : (count from : ℕ) → List BalanceLog
blocks zero from = []
blocks (suc count) from = logs_at from ++ blocks count (suc from)

abbrev logs : (from to : ℕ) → List BalanceLog
logs from to = blocks (to + 1 - from) from

blocks-add : (j k from : ℕ) → blocks (j + k) from ≡ blocks j from ++ blocks k (from + j)
blocks-add zero k from =
    let none_before : from ≡ from + 0 = omega arith in
    let all : 0 + k ≡ k = omega arith in rw all (ap (blocks k) none_before)
blocks-add (suc j) k from =
    let one_more : suc j + k ≡ suc (j + k) = omega arith in
    let later : suc from + j ≡ from + suc j = omega arith in
    rw (one_more, ← later)
      (ap (λ l. logs_at from ++ l) (blocks-add j k (suc from))
        ∙ sym (append_assoc (logs_at from) (blocks j (suc from)) (blocks k (suc from + j))))

abbrev at_start : Scanned Balances
at_start = record { next = 1; state = [] }

scan_of_four :
    sync logs 4 2 4 at_start
    ≡ some (record { next = 5; state = (5, (7, pos 0) ∷ (8, negsuc 2) ∷ []) ∷ [] })
unfolding sync scan apply_all apply_log get_key set_key
scan_of_four = refl

holders_of_5 : holders ((5, (7, pos 0) ∷ (8, negsuc 2) ∷ []) ∷ []) (5 ∷ []) ≡ 8 ∷ []
unfolding holders get_key
holders_of_5 = refl

logs-Splits : Splits logs apply_log
logs-Splits a b c le lt =
    let whole : c + 1 - a ≡ (b + 1 - a) + (c - b) = omega arith in
    let rest : c - b ≡ c + 1 - (b + 1) = omega arith in
    let from : a + (b + 1 - a) ≡ b + 1 = omega arith in
    ap (λ m. blocks m a) whole
    ∙ blocks-add (b + 1 - a) (c - b) a
    ∙ ap₂ (λ m n. logs a b ++ blocks m n) rest from

sync-balance_in_example :
    (d : Scanned Balances) × (sync logs 4 2 4 at_start ≡ some d)
    × (d.next ≡ 5)
    × (balance_in d.state 5 7 ≡ last_balance (logs 1 4) 5 7 (pos 0))
unfolding get_key
sync-balance_in_example =
    sync-balance_in logs 4 2 4 at_start 5 7 logs-Splits (omega arith) (omega arith) (omega arith)

sync-holders_example :
    (d : Scanned Balances) × (sync logs 4 2 4 at_start ≡ some d)
    × IsRising (holders d.state (5 ∷ []))
    × (elem 8 (holders d.state (5 ∷ []))
        ≡ any (λ id. holds (last_balance (logs 1 4) id 8 (pos 0))) (5 ∷ []))
sync-holders_example =
    sync-holders logs 4 2 4 1 (5 ∷ []) 8 logs-Splits (omega arith) (omega arith) (omega arith)
