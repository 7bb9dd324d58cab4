-- ===== src/Hedge/Codes/Classified.antt =====
-- What the classification of an exchange code promises.
use binance_funding_hedging.Prelude.{
  ℕ, ◌≡◌, ◌↔◌, refl, true, false, Option, none, some, List, [], ◌∷◌, String, arith, if◌then◌else◌,
}
use binance_funding_hedging.Prelude.Texts.{mem, disjoint, disjoint-mem}
use binance_funding_hedging.Hedge.Vocabulary.{
  fatal, insufficient_funds, collateral_cap, Product, margin,
}
use binance_funding_hedging.Hedge.Codes.{
  classify_exchange_code, is_insufficient_funds_code, fatal_exchange_codes,
  auth_ambiguous_exchange_codes, insufficient_funds_codes, insufficient_balance_code,
  margin_business_codes,
}
use binance_funding_hedging.Hedge.Codes.Message.{confirms_insufficient_balance}
use text.Mathlib.Text.{◌==◌ as str_eq}

fatal-not-auth :
    (code : String)
    → mem code fatal_exchange_codes ≡ true
    → mem code auth_ambiguous_exchange_codes ≡ false
unfolding disjoint
fatal-not-auth code h = disjoint-mem code fatal_exchange_codes auth_ambiguous_exchange_codes refl h

margin-not-auth :
    (code : String)
    → mem code margin_business_codes ≡ true
    → mem code auth_ambiguous_exchange_codes ≡ false
unfolding disjoint
margin-not-auth code h =
    disjoint-mem code margin_business_codes auth_ambiguous_exchange_codes refl h

margin-not-fatal :
    (code : String) → mem code margin_business_codes ≡ true → mem code fatal_exchange_codes ≡ false
unfolding disjoint
margin-not-fatal code h = disjoint-mem code margin_business_codes fatal_exchange_codes refl h

not-mem-one : (s t : String) → mem s (t ∷ []) ≡ false → str_eq s t ≡ false
unfolding mem
not-mem-one s t h = ground arith

margin-not-insufficient :
    (code : String) (msg : Option (List ℕ))
    → mem code margin_business_codes ≡ true
    → is_insufficient_funds_code (some code) msg ≡ false
unfolding is_insufficient_funds_code disjoint
margin-not-insufficient code msg h = rw (
  disjoint-mem code margin_business_codes insufficient_funds_codes refl h,
  not-mem-one code insufficient_balance_code
      (disjoint-mem code margin_business_codes (insufficient_balance_code ∷ []) refl h),
)

-- The classification is empty exactly when the response carried no code.
pub classify_exchange_code-none :
    (product : Product) (code : Option String) (msg : Option (List ℕ))
    → (classify_exchange_code product code msg ≡ none) ↔ (code ≡ none)
unfolding classify_exchange_code
classify_exchange_code-none product code msg = (ground arith, ground arith)

-- A code outside the margin table is classified alike for all products.
pub classify_exchange_code-product :
    (p q : Product) (code : String) (msg : Option (List ℕ))
    → mem code margin_business_codes ≡ false
    → classify_exchange_code p (some code) msg ≡ classify_exchange_code q (some code) msg
unfolding classify_exchange_code
classify_exchange_code-product p q code msg h = ground arith

-- A fatal code is reported as insufficient funds when these are confirmed and as fatal otherwise,
-- whatever the product.
pub classify_exchange_code-fatal :
    (product : Product) (code : String) (msg : Option (List ℕ))
    → mem code fatal_exchange_codes ≡ true
    → classify_exchange_code product (some code) msg
      ≡ some (if is_insufficient_funds_code (some code) msg then insufficient_funds else fatal)
unfolding classify_exchange_code
classify_exchange_code-fatal product code msg h = ground (arith, fatal-not-auth code h)

-- The code -2010 is a recoverable lack of funds exactly when a message confirms it; without such a
-- message it is fatal.
pub classify_exchange_code-2010 :
    (product : Product) (msg : Option (List ℕ))
    → classify_exchange_code product (some insufficient_balance_code) msg ≡ elim msg [
      | none ↦ some fatal
      | some text ↦ some (if confirms_insufficient_balance text then insufficient_funds else fatal)
    ]
unfolding is_insufficient_funds_code mem
classify_exchange_code-2010 product none =
    classify_exchange_code-fatal product insufficient_balance_code none refl
classify_exchange_code-2010 product (some text) =
    classify_exchange_code-fatal product insufficient_balance_code (some text) refl

-- The platform's collateral cap is reported for a code of the margin table on the margin product,
-- and in no other case.
pub classify_exchange_code-collateral_cap :
    (product : Product) (code : String) (msg : Option (List ℕ))
    → (classify_exchange_code product (some code) msg ≡ some collateral_cap)
      ↔ ((product ≡ margin) × (mem code margin_business_codes ≡ true))
unfolding classify_exchange_code
classify_exchange_code-collateral_cap product code msg = (
  ground arith,
  λ h. ground (
    arith,
    margin-not-auth code h.1,
    margin-not-fatal code h.1,
    margin-not-insufficient code msg h.1,
  ),
)
