-- ===== src/Tests/Codes.antt =====
-- Runs of the classification of exchange codes and of the directions and routes.
use binance_funding_hedging.Prelude.{◌≡◌, refl, true, false, some, Option, String}
use binance_funding_hedging.Prelude.Texts.{codes}
use binance_funding_hedging.Hedge.Codes.Message.{confirms_insufficient_balance}

-- The message is found with other words around it and in either case.
message_found :
    confirms_insufficient_balance (codes "Account has Insufficient available BALANCE.") ≡ true
unfolding confirms_insufficient_balance
message_found = refl

message_not_found : confirms_insufficient_balance (codes "insufficientbalance") ≡ false
unfolding confirms_insufficient_balance
message_not_found = refl

abbrev some_code : Option String
some_code = some "-1"
