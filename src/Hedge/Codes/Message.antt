-- ===== src/Hedge/Codes/Message.antt =====
-- The pattern `insufficient\s+(?:available\s+)?balance`, re.IGNORECASE, of `_INSUFFICIENT_BALANCE_MSG_RE`
-- in backend/hedge_open_tasks/domain.py, searched in a message given as its code points.
use binance_funding_hedging.Prelude.{
  ℕ, ◌+◌, Bool, true, false, Option, none, some, List, [], ◌∷◌, if◌then◌else◌, ◌||◌, ◌&&◌, ◌==◌,
  leb,
}

-- `\s` on a str: str.isspace
is_space : ℕ → Bool
is_space c =
    (leb 9 c && leb c 13)
    || (leb 28 c && leb c 32)
    || c == 0x85
    || c == 0xa0
    || c == 0x1680
    || (leb 0x2000 c && leb c 0x200a)
    || c == 0x2028
    || c == 0x2029
    || c == 0x202f
    || c == 0x205f
    || c == 0x3000

-- Whether a code point matches a lower-case ASCII letter without regard to case. Two letters of
-- the pattern have matches beyond ASCII: i has U+0130 and U+0131, s has U+017F.
matches_letter : ℕ → ℕ → Bool
matches_letter letter c =
    c == letter
    || c + 32 == letter
    || (letter == b'i' && (c == 0x130 || c == 0x131))
    || (letter == b's' && c == 0x17f)

-- What is left of the text behind a word.
after_word : List ℕ → List ℕ → Option (List ℕ)
unfolding matches_letter
after_word [] text = some text
after_word (w ∷ ws) [] = none
after_word (w ∷ ws) (c ∷ text) = if matches_letter w c then after_word ws text else none

skip_spaces : List ℕ → List ℕ
unfolding is_space
skip_spaces [] = []
skip_spaces (c ∷ text) = let rest = skip_spaces text in if is_space c then rest else c ∷ text

-- `\s+`, greedy: what follows in the pattern starts with a letter, so giving a space back
-- never helps.
after_spaces : List ℕ → Option (List ℕ)
unfolding skip_spaces
after_spaces [] = none
after_spaces (c ∷ text) = if is_space c then some (skip_spaces text) else none

abbrev insufficient_word : List ℕ
insufficient_word =
    b'i' ∷ b'n' ∷ b's' ∷ b'u' ∷ b'f' ∷ b'f' ∷ b'i' ∷ b'c' ∷ b'i' ∷ b'e' ∷ b'n' ∷ b't' ∷ []

abbrev available_word : List ℕ
available_word = b'a' ∷ b'v' ∷ b'a' ∷ b'i' ∷ b'l' ∷ b'a' ∷ b'b' ∷ b'l' ∷ b'e' ∷ []

abbrev balance_word : List ℕ
balance_word = b'b' ∷ b'a' ∷ b'l' ∷ b'a' ∷ b'n' ∷ b'c' ∷ b'e' ∷ []

starts_with_balance : List ℕ → Bool
unfolding after_word
starts_with_balance text = elim (after_word balance_word text) [ none ↦ false | some _ ↦ true ]

-- `available\s+` and the word
starts_with_available_balance : List ℕ → Bool
unfolding after_word after_spaces starts_with_balance
starts_with_available_balance text = elim (after_word available_word text) [
  | none ↦ false
  | some rest ↦ elim (after_spaces rest) [ none ↦ false | some t ↦ starts_with_balance t ]
]

-- A match at the start of the text.
match_here : List ℕ → Bool
unfolding after_word after_spaces starts_with_balance starts_with_available_balance
match_here text = elim (after_word insufficient_word text) [
  | none ↦ false
  | some rest ↦ elim (after_spaces rest) [
    | none ↦ false
    | some t ↦ starts_with_available_balance t || starts_with_balance t
  ]
]

-- `.search(msg)`; the empty message is falsy and holds no match either.
unfoldable pub confirms_insufficient_balance : List ℕ → Bool
unfolding match_here
confirms_insufficient_balance [] = false
confirms_insufficient_balance (c ∷ text) =
    match_here (c ∷ text) || confirms_insufficient_balance text
