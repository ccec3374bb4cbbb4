-- ===== src/Regex.antt =====
-- regex.h and regex.cpp: the checks of messages and the extraction of cards and scores. Boost's
-- engine is a parameter, `Boost`; what a regular expression matches is `Matches`.
pub mod Engine
pub mod Backtracking
use kierki_sik.Prelude.{
  ℕ, zero, suc, ◌≡◌, ◌≢◌, ◌↔◌, ◌⊎◌, List, [], ◌∷◌, ◌++◌, Bool, true, false, ◌||◌, Bytes, codes,
  ◌==◌, All, if◌then◌else◌,
}
use kierki_sik.Decimal.{to_string}

-- `cls cs` is a bracket, `plus cs` is `[cs]+`. The anchors `^` and `$` hold at the ends of every
-- whole match, so they are left out.
pub data Re : Type 0 where
  eps : Re
  cls plus : Bytes → Re
  seq alt : Re → Re → Re

abbrev pub has : ℕ → Bytes → Bool
has c [] = false
has c (d ∷ cs) = c == d || has c cs

abbrev pub Matches : Re → Bytes → Type 0
Matches eps s = s ≡ []
Matches (cls cs) s = (c : ℕ) × (s ≡ c ∷ []) × (has c cs ≡ true)
Matches (plus cs) s = (s ≢ []) × All (λ c. has c cs ≡ true) s
Matches (seq a b) s = (x : Bytes) × (y : Bytes) × (s ≡ x ++ y) × Matches a x × Matches b y
Matches (alt a b) s = Matches a s ⊎ Matches b s

-- What the sources rely on of `boost::regex_match` and of `boost::sregex_iterator`: the first
-- accepts what the expression matches as a whole; the second finds nothing in the empty text, steps
-- over a character at which no match begins, and reports a match that no other match at the same place competes with.
pub record Boost : Type 0 where
  pub regex_match : Re → Bytes → Bool
  pub regex_match_iff : (r : Re) (s : Bytes) → (regex_match r s ≡ true) ↔ Matches r s
  pub iterate : Re → Bytes → List Bytes
  pub iterate-nil : (r : Re) → ¬ Matches r [] → iterate r [] ≡ []
  pub iterate_skip :
      (r : Re) (c : ℕ) (s : Bytes)
      → ((x y : Bytes) → c ∷ s ≡ x ++ y → ¬ Matches r x)
      → iterate r (c ∷ s) ≡ iterate r s
  pub iterate_take :
      (r : Re) (x s : Bytes)
      → x ≢ []
      → Matches r x
      → ((y z : Bytes) → x ++ s ≡ y ++ z → Matches r y → y ≡ x)
      → iterate r (x ++ s) ≡ x ∷ iterate r s

abbrev pub literal : Bytes → Re
literal [] = eps
literal (c ∷ s) = seq (cls (c ∷ [])) (literal s)

-- `r{n}` and `r{0,n}`.
abbrev pub times : ℕ → Re → Re
times zero r = eps
times (suc n) r = seq r (times n r)

abbrev pub up_to : ℕ → Re → Re
up_to zero r = eps
up_to (suc n) r = alt (seq r (up_to n r)) eps

abbrev pub seat_re : Re
seat_re = cls (codes "NESW")

abbrev pub suit_re : Re
suit_re = cls (codes "CDHS")

-- `[2-9]|1[0]|J|Q|K|A`.
abbrev pub figure_re : Re
figure_re = alt (cls (codes "23456789")) (
    alt (seq (cls (codes "1")) (cls (codes "0")))
      (alt (cls (codes "J")) (alt (cls (codes "Q")) (alt (cls (codes "K")) (cls (codes "A"))))))

abbrev pub card_re : Re
card_re = seq figure_re suit_re

-- `[1-9]|1[0-3]`.
abbrev pub trick_nr_re : Re
trick_nr_re = alt (cls (codes "123456789")) (seq (cls (codes "1")) (cls (codes "0123")))

abbrev pub seat_score_re : Re
seat_score_re = seq seat_re (plus (codes "0123456789"))

abbrev pub end_re : Re
end_re = literal (codes "\r\n")

abbrev pub iam_re : Re
iam_re = seq (literal (codes "IAM")) (seq seat_re end_re)

abbrev pub busy_re : Re
busy_re = seq (literal (codes "BUSY")) (seq (up_to 4 seat_re) end_re)

abbrev pub deal_re : Re
deal_re =
    seq (literal (codes "DEAL"))
      (seq (cls (codes "1234567")) (seq seat_re (seq (times 13 card_re) end_re)))

abbrev pub trick_re : ℕ → Re
trick_re trick_nr =
    seq (literal (codes "TRICK"))
      (seq (literal (to_string trick_nr)) (seq (up_to 3 card_re) end_re))

abbrev pub trick_client_re : Re
trick_client_re = seq (literal (codes "TRICK")) (seq trick_nr_re (seq card_re end_re))

abbrev pub wrong_re : Re
wrong_re = seq (literal (codes "WRONG")) (seq trick_nr_re end_re)

abbrev pub taken_re : ℕ → Re
taken_re trick_nr =
    seq (literal (codes "TAKEN"))
      (seq (literal (to_string trick_nr)) (seq (times 4 card_re) (seq seat_re end_re)))

abbrev pub score_re : Re
score_re = seq (literal (codes "SCORE")) (seq (times 4 seat_score_re) end_re)

abbrev pub total_re : Re
total_re = seq (literal (codes "TOTAL")) (seq (times 4 seat_score_re) end_re)

module _ (boost : Boost) where
  open boost use {regex_match, iterate}

  unfoldable pub iam_check : Bytes → Bool
  iam_check s = regex_match iam_re s

  unfoldable pub busy_check : Bytes → Bool
  busy_check s = regex_match busy_re s

  unfoldable pub deal_check : Bytes → Bool
  deal_check s = regex_match deal_re s

  unfoldable pub trick_check : Bytes → ℕ → Bool
  trick_check s trick_nr = regex_match (trick_re trick_nr) s

  unfoldable pub trick_client_check : Bytes → Bool
  trick_client_check s = regex_match trick_client_re s

  unfoldable pub wrong_check : Bytes → Bool
  wrong_check s = regex_match wrong_re s

  unfoldable pub taken_check : Bytes → ℕ → Bool
  taken_check s trick_nr = regex_match (taken_re trick_nr) s

  unfoldable pub score_check : Bytes → Bool
  score_check s = regex_match score_re s

  unfoldable pub total_check : Bytes → Bool
  total_check s = regex_match total_re s

  unfoldable pub extract_cards : Bytes → List Bytes
  extract_cards s = iterate card_re s

  unfoldable pub extract_seat_score : Bytes → List Bytes
  extract_seat_score s = iterate seat_score_re s
