-- ===== src/Prelude/Texts.antt =====
-- Membership of a text in a list of texts.
use binance_funding_hedging.Prelude.{
  ℕ, ◌≡◌, Bool, true, false, List, [], ◌∷◌, Option, none, some, String, if◌then◌else◌, arith, not,
  ◌&&◌, ◌==◌, Bool-cases, inl, inr,
}
use Prim.Native.Char.{code}
use mathlib.Core.Option
use text.Mathlib.Text.{◌==◌ as str_eq}
use text.Mathlib.TextEquality.{eq_iff}

-- `code in CODES`
unfoldable pub mem : String → List String → Bool
mem s [] = false
mem s (t ∷ ts) = if str_eq s t then true else mem s ts

-- No text of the first list is in the second.
unfoldable pub disjoint : List String → List String → Bool
unfolding mem
disjoint [] ts = true
disjoint (s ∷ ss) ts = not (mem s ts) && disjoint ss ts

pub disjoint-mem :
    (s : String) (ss ts : List String) → disjoint ss ts ≡ true → mem s ss ≡ true → mem s ts ≡ false
unfolding disjoint mem
disjoint-mem s [] ts d m = cc
disjoint-mem s (t ∷ ss) ts d m = elim (Bool-cases (str_eq s t)) [
  | inl e ↦ rw ((eq_iff s t).0 e) (ground (arith, d))
  | inr e ↦ disjoint-mem s ss ts (ground arith) (ground arith)
]

-- A text as its code points, where the code takes it apart.
abbrev pub Text : Type 0
Text = List ℕ

abbrev pub codes : String → Text
codes String.[] = []
codes (String.◌∷◌ c s) = code c ∷ codes s

abbrev pub same_text : Text → Text → Bool
same_text [] [] = true
same_text [] (d ∷ t) = false
same_text (c ∷ s) [] = false
same_text (c ∷ s) (d ∷ t) = let rest = same_text s t in if c == d then rest else false

-- `s[:-len(suffix)] if s.endswith(suffix)`
unfoldable pub strip_suffix : Text → Text → Option Text
strip_suffix suffix [] = if same_text [] suffix then some [] else none
strip_suffix suffix (c ∷ s) =
    let rest = strip_suffix suffix s in
    if same_text (c ∷ s) suffix then some [] else Option.map (λ t. c ∷ t) rest
