-- ===== src/Ledger/Repay.antt =====
-- The repayment that ends an interest row's estimate: settlement_ms, is_terminal_repay,
-- build_repay_match_index and match_interest_repay of backend/ledger_flow/domain.py.
use binance_funding_hedging.Prelude.{
  ℕ, ◌/◌, Bool, true, false, Option, none, some, List, [], ◌∷◌, String, if◌then◌else◌, ltb, leb,
  ◌==◌, ◌&&◌, ◌||◌, find?,
}
use binance_funding_hedging.Prelude.Texts.{Text, codes}
use text.Mathlib.Text.{◌==◌ as str_eq}

-- What int() makes of a time column: absent, not a number, or a number.
pub data TimeField : Type 0 where
  absent not_a_number : TimeField
  number : ℕ → TimeField

-- A row of margin_repay_record, with the columns that are read here.
pub record RepayRecord : Type 0 where
  pub asset : String
  pub amount : String
  pub status : String
  pub client_request_id : Option String
  pub update_time : TimeField
  pub updated_at_us : TimeField

abbrev from_updated_at : TimeField → Option ℕ
from_updated_at (number us) = some (us / 1000)
from_updated_at _ = none

unfoldable pub settlement_ms : RepayRecord → Option ℕ
settlement_ms r = elim r.update_time [ number ms ↦ some ms | _ ↦ from_updated_at r.updated_at_us ]

unfoldable pub is_terminal_repay : RepayRecord → Bool
is_terminal_repay r = str_eq r.amount "0" && str_eq r.status "succeeded"

-- The order of texts by their code points.
unfoldable pub text_le : Text → Text → Bool
text_le [] t = true
text_le (c ∷ s) [] = false
text_le (c ∷ s) (d ∷ t) = let rest = text_le s t in ltb c d || c == d && rest

abbrev id_codes : Option String → Text
id_codes none = []
id_codes (some s) = codes s

-- A record with its settlement time, as the groups hold it.
abbrev pub Entry : Type 0
Entry = ℕ × RepayRecord

-- The order of the sort key (settlement_ms, client_request_id).
unfoldable pub entry_le : Entry → Entry → Bool
unfolding text_le
entry_le a b =
    ltb a.0 b.0
    || a.0 == b.0 && text_le (id_codes a.1.client_request_id) (id_codes b.1.client_request_id)

unfoldable pub insert_entry : Entry → List Entry → List Entry
unfolding entry_le
insert_entry e [] = e ∷ []
insert_entry e (x ∷ xs) =
    let rest = insert_entry e xs in if entry_le e x then e ∷ x ∷ xs else x ∷ rest

-- sorted(), which is stable
unfoldable pub sort_entries : List Entry → List Entry
unfolding insert_entry
sort_entries [] = []
sort_entries (e ∷ entries) = insert_entry e (sort_entries entries)

-- The terminal records of an asset that have a settlement time.
unfoldable pub entries_of : String → List RepayRecord → List Entry
unfolding is_terminal_repay settlement_ms
entries_of asset [] = []
entries_of asset (r ∷ records) =
    let rest = entries_of asset records in
    if is_terminal_repay r && str_eq r.asset asset
    then elim (settlement_ms r) [ none ↦ rest | some ms ↦ (ms, r) ∷ rest ]
    else rest

abbrev pub records_of : List Entry → List RepayRecord
records_of [] = []
records_of (e ∷ entries) = e.1 ∷ records_of entries

-- The index, as the group of an asset.
unfoldable pub build_repay_match_index : List RepayRecord → String → List RepayRecord
unfolding sort_entries entries_of
build_repay_match_index records asset = records_of (sort_entries (entries_of asset records))

abbrev pub settles_by : ℕ → RepayRecord → Bool
settles_by accrued_at_ms r = elim (settlement_ms r) [
  | none ↦ false
  | some ms ↦ leb accrued_at_ms ms
]

-- An interest row without an asset or a time has no match.
unfoldable pub match_interest_repay :
    Option String → Option ℕ → (String → List RepayRecord) → Option RepayRecord
match_interest_repay none accrued_at_ms index = none
match_interest_repay (some asset) none index = none
match_interest_repay (some asset) (some accrued_at_ms) index =
    find? (settles_by accrued_at_ms) (index asset)
