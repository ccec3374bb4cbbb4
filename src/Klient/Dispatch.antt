-- ===== src/Klient/Dispatch.antt =====
-- Which branch of the worker's chain of checks a message of the server takes.
use kierki_sik.Prelude.{
  ℕ, ◌+◌, ◌-◌, ◌≤◌, ◌<◌, ◌≡◌, ◌≢◌, refl, ap, ◌∙◌, List, [], ◌∷◌, ◌++◌, Bool, false, Bytes, codes,
  inl, inr, Bool-cases, arith, length, length-append, map, last_char, get_or, leb, lt→ltb, le→ltb,
  dec_lt,
}
use kierki_sik.Cards.{Card, card_text, suit_char}
use kierki_sik.Cards.Texts.{card_text-length, last_char-card_text}
use kierki_sik.Regex.{
  Boost, Re, seq, literal, busy_check, deal_check, wrong_check, taken_check, score_check,
  total_check, extract_cards,
}
use kierki_sik.Messages.{trick_message, delimeter}
use kierki_sik.Messages.Numbers.{short_number, long_number, cut_end}
use kierki_sik.Messages.TrickNumbers.{IsTrickNr}
use kierki_sik.Messages.Words.{Matches-literal}
use kierki_sik.Messages.Repeats.{cards_text}
use kierki_sik.Messages.Language.{trick_check_iff, extract_cards-concat}
use kierki_sik.Klient.{Klient, receive, receive_trick, trick_color}

-- An expression that begins with a word does not match a text that begins otherwise.
pub other_word :
    (boost : Boost) (w : Bytes) (q : Re) (s : Bytes)
    → ((t : Bytes) → s ≢ w ++ t)
    → boost.regex_match (seq (literal w) q) s ≡ false
other_word boost w q s ne = elim (Bool-cases (boost.regex_match (seq (literal w) q) s)) [
  | inr e ↦ e
  | inl e ↦
      let (x, y, es, mx, my) = (boost.regex_match_iff (seq (literal w) q) s).0 e in
      absurd (ne y (es ∙ ap (λ l. l ++ y) ((Matches-literal w x).0 mx)))
]

module _ (boost : Boost) (n : ℕ) (cards : List Bytes) where
  trick_not_busy : busy_check boost (trick_message n cards) ≡ false
  unfolding busy_check
  trick_not_busy = other_word boost (codes "BUSY") _ _ (λ t e. ground arith)

  trick_not_deal : deal_check boost (trick_message n cards) ≡ false
  unfolding deal_check
  trick_not_deal = other_word boost (codes "DEAL") _ _ (λ t e. ground arith)

  trick_not_wrong : wrong_check boost (trick_message n cards) ≡ false
  unfolding wrong_check
  trick_not_wrong = other_word boost (codes "WRONG") _ _ (λ t e. ground arith)

  trick_not_taken : (m : ℕ) → taken_check boost (trick_message n cards) m ≡ false
  unfolding taken_check
  trick_not_taken m = other_word boost (codes "TAKEN") _ _ (λ t e. ground arith)

  trick_not_score : score_check boost (trick_message n cards) ≡ false
  unfolding score_check
  trick_not_score = other_word boost (codes "SCORE") _ _ (λ t e. ground arith)

  trick_not_total : total_check boost (trick_message n cards) ≡ false
  unfolding total_check
  trick_not_total = other_word boost (codes "TOTAL") _ _ (λ t e. ground arith)

-- A request for a card of the current trick reaches `receive_trick`.
pub receive-trick :
    (boost : Boost) (written : Bool) (table : List Card) (k : Klient)
    → length table ≤ 3
    → let message = trick_message k.trick_number (map card_text table) in
      receive boost written message k ≡ receive_trick boost written message k
unfolding receive
receive-trick boost written table k h = simp (
  trick_not_busy,
  trick_not_deal,
  trick_not_wrong,
  trick_not_taken,
  trick_not_score,
  trick_not_total,
  (trick_check_iff boost (trick_message k.trick_number (map card_text table)) k.trick_number).1
      ((table, h), refl),
)

-- The color asked for: that of the first card on the table.
abbrev pub asked : List Card → Bytes
asked [] = []
asked (c ∷ table) = suit_char c.suit ∷ []

leb_above : (a : ℕ) → 10 ≤ a → leb a 9 ≡ false
leb_above a h = ground arith

color_short :
    (boost : Boost) (n : ℕ) (t : Bytes)
    → n < 10
    → 2 ≤ length t
    → trick_color boost (codes "TRICK" ++ (b'0' + n) ∷ (t ++ delimeter)) n
      ≡ last_char (get_or (extract_cards boost t) 0 []) ∷ []
unfolding trick_color
color_short boost n t h l =
    rw
      (
        leb_above (length (codes "TRICK" ++ (b'0' + n) ∷ (t ++ delimeter)))
            (omega (arith, length-append t delimeter)),
        lt→ltb n 10 h,
      )
      (ap (λ s. last_char (get_or (extract_cards boost s) 0 []) ∷ []) (cut_end t _ (omega arith)))

color_long :
    (boost : Boost) (n d : ℕ) (t : Bytes)
    → 10 ≤ n
    → 2 ≤ length t
    → trick_color boost (codes "TRICK" ++ b'1' ∷ (b'0' + d) ∷ (t ++ delimeter)) n
      ≡ last_char (get_or (extract_cards boost t) 0 []) ∷ []
unfolding trick_color
color_long boost n d t h l =
    rw
      (
        leb_above (length (codes "TRICK" ++ b'1' ∷ (b'0' + d) ∷ (t ++ delimeter)))
            (omega (arith, length-append t delimeter)),
        le→ltb n 10 h,
      )
      (ap (λ s. last_char (get_or (extract_cards boost s) 0 []) ∷ []) (cut_end t _ (omega arith)))

first_color :
    (boost : Boost) (c : Card) (table : List Card)
    → last_char (get_or (extract_cards boost (cards_text (c ∷ table))) 0 []) ∷ []
      ≡ suit_char c.suit ∷ []
first_color boost c table =
    ap (λ l. last_char (get_or l 0 []) ∷ []) (extract_cards-concat boost (c ∷ table))
    ∙ ap (λ x. x ∷ []) (last_char-card_text c)

cards_text-length : (c : Card) (table : List Card) → 2 ≤ length (cards_text (c ∷ table))
cards_text-length c table =
    omega (arith, length-append (card_text c) (cards_text table), card_text-length c)

no_color : (boost : Boost) (n : ℕ) → IsTrickNr n → trick_color boost (trick_message n []) n ≡ []
unfolding trick_color
no_color boost n r = elim (dec_lt n 10) [
  | yes h ↦ rw (short_number n r.0 h)
  | no h ↦ rw (long_number n (omega arith) r.1)
]

-- A client reads the color to follow off a request of the trick that it is in, 1 to 13.
pub trick_color-asked :
    (boost : Boost) (n : ℕ) (table : List Card)
    → IsTrickNr n
    → trick_color boost (trick_message n (map card_text table)) n ≡ asked table
trick_color-asked boost n [] r = no_color boost n r
trick_color-asked boost n (c ∷ table) r = elim (dec_lt n 10) [
  | yes h ↦
      ap (λ s. trick_color boost (codes "TRICK" ++ (s ++ (cards_text (c ∷ table) ++ delimeter))) n)
        (short_number n r.0 h)
      ∙ color_short boost n (cards_text (c ∷ table)) h (cards_text-length c table)
      ∙ first_color boost c table
  | no h ↦
      ap (λ s. trick_color boost (codes "TRICK" ++ (s ++ (cards_text (c ∷ table) ++ delimeter))) n)
        (long_number n (omega arith) r.1)
      ∙ color_long boost n (n - 10) (cards_text (c ∷ table)) (omega arith)
          (cards_text-length c table)
      ∙ first_color boost c table
]
