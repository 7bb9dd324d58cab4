-- ===== src/Tests/Ledgers.antt =====
-- Runs of the flow log.
use binance_funding_hedging.Prelude.{
  ℕ, ◌≡◌, ◌<◌, ◌≤◌, none, some, List, [], ◌∷◌, String, All, find?, refl,
}
use binance_funding_hedging.Ledger.Dedup.{
  IncomeRow, same_income, dedup, dedup_onto, AreDistinct, income-IsKeyTest, dedup-AreDistinct,
}
use binance_funding_hedging.Ledger.Repay.{
  RepayRecord, number, not_a_number, build_repay_match_index, match_interest_repay,
}
use binance_funding_hedging.Ledger.Match.{IsRepaid, match_interest_repay-first}

abbrev income : String → String → String → IncomeRow
income tran_id income_type amount = record {
  tran_id = tran_id;
  income_type = income_type;
  income = some amount;
}

-- A funding fee and a commission under one id, and the funding fee once more.
abbrev incomes : List IncomeRow
incomes =
    income "7" "FUNDING_FEE" "0.5"
    ∷ income "7" "COMMISSION" "-0.1"
    ∷ income "7" "FUNDING_FEE" "0.9"
    ∷ []

dedup_run :
    dedup same_income incomes ≡ income "7" "FUNDING_FEE" "0.5" ∷ income "7" "COMMISSION" "-0.1" ∷ []
unfolding dedup dedup_onto
dedup_run = refl

dedup-AreDistinct_example :
    AreDistinct same_income (dedup same_income incomes)
    × ((q : IncomeRow)
        → find? (same_income q) (dedup same_income incomes) ≡ find? (same_income q) incomes)
dedup-AreDistinct_example = dedup-AreDistinct same_income income-IsKeyTest incomes

abbrev repay : String → ℕ → RepayRecord
repay amount ms = record {
  asset = "BTC";
  amount = amount;
  status = "succeeded";
  client_request_id = some "r";
  update_time = number ms;
  updated_at_us = not_a_number;
}

abbrev repays : List RepayRecord
repays = repay "0" 90 ∷ repay "3" 40 ∷ repay "0" 50 ∷ repay "0" 20 ∷ []

match_run :
    match_interest_repay (some "BTC") (some 30) (build_repay_match_index repays)
    ≡ some (repay "0" 50)
unfolding match_interest_repay build_repay_match_index
match_run = refl

match_interest_repay-first_example :
    let matched = match_interest_repay (some "BTC") (some 30) (build_repay_match_index repays) in
    ((m : RepayRecord)
      → matched ≡ some m
      → (ms : ℕ) × IsRepaid "BTC" m ms
        × (30 ≤ ms)
        × All (λ r. (n : ℕ) → IsRepaid "BTC" r n → 30 ≤ n → ms ≤ n) repays)
    × (matched ≡ none → All (λ r. (n : ℕ) → IsRepaid "BTC" r n → n < 30) repays)
match_interest_repay-first_example = match_interest_repay-first "BTC" 30 repays
