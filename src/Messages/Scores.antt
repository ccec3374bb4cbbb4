-- ===== src/Messages/Scores.antt =====
-- SCORE and TOTAL messages of scores that are not negative pass the client's checks.
use kierki_sik.Prelude.{
  ℕ, ◌≡◌, refl, List, [], ◌∷◌, ◌++◌, append_assoc, sym, true, Bytes, codes, All, arith,
}
use kierki_sik.Prelude.Int.{ℤ, pos}
use kierki_sik.Decimal.{
  is_digit, to_string, to_string_int, IsNumeral, to_string-IsNumeral, to_string-ne-nil,
}
use kierki_sik.Seats.{Seat, north, east, south, west, seat_text}
use kierki_sik.Regex.{
  Boost, seq, has, Matches, literal, times, seat_score_re, end_re, score_check, total_check,
}
use kierki_sik.Messages.{delimeter, concat_scores, score_message, total_message}
use kierki_sik.Messages.Words.{Matches-literal, Matches-seat_re}

-- The scores of the four seats, in the order of the map's keys.
abbrev pub points : (Seat → ℕ) → List (Bytes × ℤ)
points f =
    (codes "E", pos (f east))
    ∷ (codes "N", pos (f north))
    ∷ (codes "S", pos (f south))
    ∷ (codes "W", pos (f west))
    ∷ []

abbrev digits : Bytes
digits = codes "0123456789"

is_digit-has : (c : ℕ) → is_digit c ≡ true → has c digits ≡ true
unfolding is_digit
is_digit-has c h = ground arith

numeral_digits : (s : Bytes) → IsNumeral s → All (λ c. has c digits ≡ true) s
numeral_digits [] h = tt
numeral_digits (c ∷ s) h = (is_digit-has c h.0, numeral_digits s h.1)

entry-Matches : (x : Seat) (n : ℕ) → Matches seat_score_re (seat_text x ++ to_string n)
entry-Matches x n = (
  seat_text x,
  to_string n,
  refl,
  (Matches-seat_re (seat_text x)).1 (x, refl),
  (to_string-ne-nil n, numeral_digits (to_string n) (to_string-IsNumeral n)),
)

-- One entry more in front.
entries-Matches :
    (n k : ℕ) (x : Seat) (s : Bytes)
    → Matches (times n seat_score_re) s
    → Matches (seq seat_score_re (times n seat_score_re)) (seat_text x ++ (to_string k ++ s))
entries-Matches n k x s h = (
  seat_text x ++ to_string k,
  s,
  sym (append_assoc (seat_text x) (to_string k) s),
  entry-Matches x k,
  h,
)

four_entries : (f : Seat → ℕ) → Matches (times 4 seat_score_re) (concat_scores (points f))
unfolding to_string_int
four_entries f = entries-Matches 3 (f east) east _ (
    entries-Matches 2 (f north) north _
      (entries-Matches 1 (f south) south _ (entries-Matches 0 (f west) west [] refl)))

line-Matches :
    (w : Bytes) (f : Seat → ℕ)
    → Matches
        (seq (literal w) (seq (times 4 seat_score_re) end_re))
        (w ++ (concat_scores (points f) ++ delimeter))
line-Matches w f = (
  w,
  concat_scores (points f) ++ delimeter,
  refl,
  (Matches-literal w w).1 refl,
  (
    concat_scores (points f),
    delimeter,
    refl,
    four_entries f,
    (Matches-literal delimeter delimeter).1 refl,
  ),
)

pub score_check-points :
    (boost : Boost) (f : Seat → ℕ) → score_check boost (score_message (points f)) ≡ true
unfolding score_check
score_check-points boost f = (boost.regex_match_iff _ _).1 (line-Matches (codes "SCORE") f)

pub total_check-points :
    (boost : Boost) (f : Seat → ℕ) → total_check boost (total_message (points f)) ≡ true
unfolding total_check
total_check-points boost f = (boost.regex_match_iff _ _).1 (line-Matches (codes "TOTAL") f)
