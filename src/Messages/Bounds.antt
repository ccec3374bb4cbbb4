-- ===== src/Messages/Bounds.antt =====
-- How long the messages of senders.cpp get, and where a carriage return stands in them.
use kierki_sik.Prelude.{
  ℕ, suc, ◌+◌, ◌*◌, ◌≤◌, ◌<◌, ◌≡◌, ◌≢◌, refl, ap, sym, ◌∙◌, List, [], ◌∷◌, ◌++◌, append_assoc, map,
  Bytes, codes, length, length-append, All, All-append, arith, ◌^◌, true,
}
use kierki_sik.Prelude.Int.{ℤ, pos, negsuc}
use kierki_sik.Decimal.{
  tens, to_string-length, to_string, to_string_int, is_digit, IsNumeral, to_string-IsNumeral,
}
use kierki_sik.Cards.{Card, Rank, Suit, rank_text, suit_char, card_text, two, clubs}
use kierki_sik.Seats.{Seat, north, seat_text}
use kierki_sik.Messages.{
  delimeter, concat_scores, iam_message, busy_message, deal_message, trick_message, wrong_message,
  taken_message, score_message, total_message,
}
use kierki_sik.Messages.Repeats.{cards_text}
use kierki_sik.Sockets.{max_buffer_size}
use kierki_sik.Sockets.Framing.{IsPlain}

-- The messages of the protocol. A seat is one of the four, a card one of the deck; the scores are
-- listed by seat.
pub data Message : Type 0 where
  iam : Seat → Message
  busy : List Seat → Message
  deal : ℕ → Seat → List Card → Message
  trick : ℕ → List Card → Message
  wrong : ℕ → Message
  taken : ℕ → List Card → Seat → Message
  score total : List (Seat × ℤ) → Message

abbrev seats_text : List Seat → Bytes
seats_text [] = []
seats_text (x ∷ xs) = seat_text x ++ seats_text xs

abbrev named : List (Seat × ℤ) → List (Bytes × ℤ)
named = map (λ p. (seat_text p.0, p.1))

abbrev pub text : Message → Bytes
text (iam x) = iam_message (seat_text x)
text (busy xs) = busy_message (seats_text xs)
text (deal k x cs) = deal_message k (seat_text x) (map card_text cs)
text (trick n cs) = trick_message n (map card_text cs)
text (wrong n) = wrong_message n
text (taken n cs x) = taken_message n (map card_text cs) (seat_text x)
text (score l) = score_message (named l)
text (total l) = total_message (named l)

-- An integer of 32 bits.
abbrev pub IsInt32 : ℤ → Type 0
IsInt32 (pos n) = n < 2 ^ 31
IsInt32 (negsuc n) = n < 2 ^ 31

-- What the game can put into a message: numbers below 100, at most the four seats and a hand of
-- thirteen cards, and scores of 32 bits.
abbrev pub IsSound : Message → Type 0
IsSound (iam x) = Unit {0}
IsSound (busy xs) = length xs ≤ 4
IsSound (deal k x cs) = (k < 100) × (length cs ≤ 13)
IsSound (trick n cs) = (n < 100) × (length cs ≤ 13)
IsSound (wrong n) = n < 100
IsSound (taken n cs x) = (n < 100) × (length cs ≤ 13)
IsSound (score l) = (length l ≤ 4) × All (λ p. IsInt32 p.1) l
IsSound (total l) = (length l ≤ 4) × All (λ p. IsInt32 p.1) l

-- A text with no carriage return and at most `n` bytes.
abbrev Fits : ℕ → Bytes → Type 0
Fits n s = IsPlain s × (length s ≤ n)

Fits-append : (m n : ℕ) (s t : Bytes) → Fits m s → Fits n t → Fits (m + n) (s ++ t)
Fits-append m n s t (ps, ls) (pt, lt) =
    (All-append (λ c. c ≢ 13) s t ps pt, omega (arith, length-append s t))

seat_Fits : (x : Seat) → Fits 1 (seat_text x)
seat_Fits north = ground arith
seat_Fits _ = ground arith

seats_Fit : (xs : List Seat) → Fits (length xs) (seats_text xs)
seats_Fit [] = (tt, omega arith)
seats_Fit (x ∷ xs) =
    let (p, l) =
      Fits-append 1 (length xs) (seat_text x) (seats_text xs) (seat_Fits x) (seats_Fit xs) in
    (p, omega arith)

card_Fits : (r : Rank) (u : Suit) → Fits 3 (rank_text r ++ suit_char u ∷ [])
card_Fits two clubs = ground arith
card_Fits _ _ = ground arith

cards_Fit : (cs : List Card) → Fits (3 * length cs) (cards_text cs)
cards_Fit [] = (tt, omega arith)
cards_Fit (c ∷ cs) =
    let (p, l) =
      Fits-append 3 (3 * length cs) (card_text c) (cards_text cs) (card_Fits c.rank c.suit)
        (cards_Fit cs) in
    (p, omega arith)

digit-plain : (c : ℕ) → is_digit c ≡ true → c ≢ 13
unfolding is_digit
digit-plain c h = ground arith

numeral-IsPlain : (s : Bytes) → IsNumeral s → IsPlain s
numeral-IsPlain [] h = tt
numeral-IsPlain (c ∷ s) h = (digit-plain c h.0, numeral-IsPlain s h.1)

number_Fits : (n k : ℕ) → n < tens (suc k) → Fits (suc k) (to_string n)
number_Fits n k h = (numeral-IsPlain (to_string n) (to_string-IsNumeral n), to_string-length n k h)

int_Fits : (a : ℤ) → IsInt32 a → Fits 11 (to_string_int a)
unfolding to_string_int
int_Fits (pos n) h = let (p, l) = number_Fits n 9 (omega arith) in (p, omega arith)
int_Fits (negsuc n) h =
    let (p, l) = number_Fits (suc n) 9 (omega arith) in ((ground arith, p), omega arith)

score_Fits : (x : Seat) (a : ℤ) → IsInt32 a → Fits 12 (seat_text x ++ to_string_int a)
score_Fits x a h = Fits-append 1 11 (seat_text x) (to_string_int a) (seat_Fits x) (int_Fits a h)

scores_Fit :
    (l : List (Seat × ℤ))
    → All (λ p. IsInt32 p.1) l
    → Fits (12 * length l) (concat_scores (named l))
scores_Fit [] h = (tt, omega arith)
scores_Fit ((x, a) ∷ l) h =
    let (p, b) =
      Fits-append 1 (11 + 12 * length l) (seat_text x) (to_string_int a ++ concat_scores (named l))
        (seat_Fits x)
        (Fits-append 11 (12 * length l) (to_string_int a) (concat_scores (named l)) (int_Fits a h.0)
          (scores_Fit l h.1)) in
    (p, omega arith)

-- A text before its line's end.
pub record Line (s : Bytes) : Type 0 where
  pub body : Bytes
  pub ended : s ≡ body ++ delimeter
  pub plain : IsPlain body
  pub short : length body ≤ 89

-- Behind a plain word, a text that fits makes a line.
line :
    (k n : ℕ) (w s : Bytes) (r : Bytes)
    → Fits k w
    → Fits n s
    → k + n ≤ 89
    → r ≡ w ++ (s ++ delimeter)
    → Line r
line k n w s r hw hs l e =
    let (p, b) = Fits-append k n w s hw hs in
    record {
      body = w ++ s;
      ended = e ∙ sym (append_assoc w s delimeter);
      plain = p;
      short = omega arith;
    }

pub text-Line : (m : Message) → IsSound m → Line (text m)
text-Line (iam x) h =
    line 3 1 (codes "IAM") (seat_text x) _ (ground arith) (seat_Fits x) (omega arith) refl
text-Line (busy xs) h =
    line 4 (length xs) (codes "BUSY") (seats_text xs) _ (ground arith) (seats_Fit xs) (omega arith)
      refl
text-Line (deal k x cs) (hk, hc) =
    line 4 (2 + (1 + 3 * length cs)) (codes "DEAL") (to_string k ++ (seat_text x ++ cards_text cs))
      _ (ground arith)
      (Fits-append 2 (1 + 3 * length cs) (to_string k) (seat_text x ++ cards_text cs)
        (number_Fits k 1 (omega arith))
        (Fits-append 1 (3 * length cs) (seat_text x) (cards_text cs) (seat_Fits x) (cards_Fit cs)))
      (omega arith) (simp append_assoc)
text-Line (trick n cs) (hn, hc) =
    line 5 (2 + 3 * length cs) (codes "TRICK") (to_string n ++ cards_text cs) _ (ground arith)
      (Fits-append 2 (3 * length cs) (to_string n) (cards_text cs) (number_Fits n 1 (omega arith))
        (cards_Fit cs))
      (omega arith) (simp append_assoc)
text-Line (wrong n) h =
    line 5 2 (codes "WRONG") (to_string n) _ (ground arith) (number_Fits n 1 (omega arith))
      (omega arith) refl
text-Line (taken n cs x) (hn, hc) =
    line 5 (2 + (3 * length cs + 1)) (codes "TAKEN") (to_string n ++ (cards_text cs ++ seat_text x))
      _ (ground arith)
      (Fits-append 2 (3 * length cs + 1) (to_string n) (cards_text cs ++ seat_text x)
        (number_Fits n 1 (omega arith))
        (Fits-append (3 * length cs) 1 (cards_text cs) (seat_text x) (cards_Fit cs) (seat_Fits x)))
      (omega arith) (simp append_assoc)
text-Line (score l) (hl, hs) =
    line 5 (12 * length l) (codes "SCORE") (concat_scores (named l)) _ (ground arith)
      (scores_Fit l hs) (omega arith) refl
text-Line (total l) (hl, hs) =
    line 5 (12 * length l) (codes "TOTAL") (concat_scores (named l)) _ (ground arith)
      (scores_Fit l hs) (omega arith) refl

-- Every message that the game can send, with the scores as integers of 32 bits, has at most 91
-- bytes, the bound of the reader, and its only carriage return is in its line's end.
pub text-IsSound :
    (m : Message)
    → IsSound m
    → (body : Bytes) × (text m ≡ body ++ delimeter)
      × IsPlain body
      × (length (text m) ≤ suc max_buffer_size)
text-IsSound m h =
    let l = text-Line m h in
    (
      l.body,
      l.ended,
      l.plain,
      omega (arith, ap length l.ended, length-append l.body delimeter, l.short),
    )
