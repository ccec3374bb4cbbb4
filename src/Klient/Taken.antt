-- ===== src/Klient/Taken.antt =====
-- The client on a TAKEN message of its trick.
use kierki_sik.Prelude.{
  ℕ, suc, zero, ◌+◌, ◌-◌, ◌≡◌, ◌↔◌, refl, ap, sym, ◌∙◌, List, [], ◌∷◌, ◌++◌, append_assoc, map,
  Bool, false, Bytes, codes, if◌then◌else◌, ◌==◌, arith, subst, get_or, length, length-append,
  take_prefix, substr, ltb, lt→ltb, le→ltb, dec_lt,
}
use kierki_sik.Cards.{Card, card_text}
use kierki_sik.Decimal.{to_string}
use kierki_sik.Seats.{Seat, seat_text, north}
use kierki_sik.Regex.{Boost, busy_check, deal_check, wrong_check}
use kierki_sik.Messages.{taken_message, delimeter}
use kierki_sik.Messages.TrickNumbers.{IsTrickNr}
use kierki_sik.Messages.Repeats.{cards_text}
use kierki_sik.Messages.Numbers.{short_number, long_number}
use kierki_sik.Messages.Language.{taken_check_iff, extract_cards-concat}
use kierki_sik.Klient.{Klient, receive, receive_taken, drop_cards}
use kierki_sik.Klient.Dispatch.{other_word}
use kierki_sik.Klient.Strategy.{Holds}
use kierki_sik.Klient.Hand.{NoTwice, drop_cards-Holds}

module _ (boost : Boost) (n : ℕ) (cards : List Bytes) (seat : Bytes) where
  taken_not_busy : busy_check boost (taken_message n cards seat) ≡ false
  unfolding busy_check
  taken_not_busy = other_word boost (codes "BUSY") _ _ (λ t e. ground arith)

  taken_not_deal : deal_check boost (taken_message n cards seat) ≡ false
  unfolding deal_check
  taken_not_deal = other_word boost (codes "DEAL") _ _ (λ t e. ground arith)

  taken_not_wrong : wrong_check boost (taken_message n cards seat) ≡ false
  unfolding wrong_check
  taken_not_wrong = other_word boost (codes "WRONG") _ _ (λ t e. ground arith)

receive-taken :
    (boost : Boost) (written : Bool) (ts : List Card) (s : Seat) (k : Klient)
    → length ts ≡ 4
    → let message = taken_message k.trick_number (map card_text ts) (seat_text s) in
      receive boost written message k ≡ receive_taken boost message k
unfolding receive
receive-taken boost written ts s k four = simp (
  taken_not_busy,
  taken_not_deal,
  taken_not_wrong,
  (taken_check_iff boost (taken_message k.trick_number (map card_text ts) (seat_text s))
        k.trick_number).1
      (((ts, four), s), refl),
)

-- The cards that the client cuts out of the message.
abbrev cut : Bytes → ℕ → Bytes
cut message n =
    if ltb n 10
    then substr message 6 (length message - 9)
    else substr message 7 (length message - 10)

seat_end : (s : Seat) → length (seat_text s ++ delimeter) ≡ 3
seat_end north = refl
seat_end _ = refl

cut_taken :
    (n : ℕ) (ts : List Card) (s : Seat)
    → IsTrickNr n
    → cut (taken_message n (map card_text ts) (seat_text s)) n ≡ cards_text ts
cut_taken n ts s r = elim (dec_lt n 10) [
  | yes h ↦
      rw (lt→ltb n 10 h, short_number n r.0 h)
        (take_prefix (cards_text ts) (seat_text s ++ delimeter) _
          (omega (arith, length-append (cards_text ts) (seat_text s ++ delimeter), seat_end s)))
  | no h ↦
      rw (le→ltb n 10 (omega arith), long_number n (omega arith) r.1)
        (take_prefix (cards_text ts) (seat_text s ++ delimeter) _
          (omega (arith, length-append (cards_text ts) (seat_text s ++ delimeter), seat_end s)))
]

get_or-append : (x y : Bytes) (i : ℕ) → i ≡ length x → get_or (x ++ y) i 0 ≡ get_or y 0 0
get_or-append [] y zero e = refl
get_or-append [] y (suc i) e = absurd (omega arith)
get_or-append (c ∷ x) y zero e = absurd (omega arith)
get_or-append (c ∷ x) y (suc i) e = get_or-append x y i (omega arith)

letter : (s : Seat) → get_or (seat_text s ++ delimeter) 0 0 ≡ get_or (seat_text s) 0 0
letter north = refl
letter _ = refl

tail_letter :
    (x : Bytes) (s : Seat)
    → let message = x ++ (seat_text s ++ delimeter) in
      get_or message (length message - 3) 0 ≡ get_or (seat_text s) 0 0
tail_letter x s =
    get_or-append x (seat_text s ++ delimeter) _
      (omega (arith, length-append x (seat_text s ++ delimeter), seat_end s))
    ∙ letter s

taker_letter :
    (n : ℕ) (ts : List Card) (s : Seat)
    → let message = taken_message n (map card_text ts) (seat_text s) in
      get_or message (length message - 3) 0 ≡ get_or (seat_text s) 0 0
taker_letter n ts s =
    ap (λ l. let message = codes "TAKEN" ++ l in get_or message (length message - 3) 0)
      (sym (append_assoc (to_string n) (cards_text ts) (seat_text s ++ delimeter)))
    ∙ tail_letter (codes "TAKEN" ++ (to_string n ++ cards_text ts)) s

-- The client after a trick with the cards `ts` that seat `s` has taken.
abbrev pub after_trick : List Card → Seat → Klient → Klient
after_trick ts s k = record k {
  my_cards = drop_cards (map card_text ts) (k.my_cards ++ k.played_cards);
  played_cards = [];
  taken_tricks =
      if get_or (seat_text s) 0 0 == get_or k.seat 0 0
      then k.taken_tricks ++ map card_text ts ∷ []
      else k.taken_tricks;
  trick_number = k.trick_number + 1;
}

receive_taken-after_trick :
    (boost : Boost) (ts : List Card) (s : Seat) (k : Klient)
    → IsTrickNr k.trick_number
    → (receive_taken boost (taken_message k.trick_number (map card_text ts) (seat_text s)) k).0
      ≡ after_trick ts s k
unfolding receive_taken
receive_taken-after_trick boost ts s k r =
    rw
      (
        taker_letter k.trick_number ts s,
        cut_taken k.trick_number ts s r,
        extract_cards-concat boost ts,
      )
      refl

-- In a trick from 1 to 13, a client that is told which four cards were in the trick and who took
-- them keeps, of the cards of its hand and of those that it played, just the ones that were not
-- in the trick, if no card is there twice. It goes on to the next trick with no card played, and
-- keeps the trick if it took it.
pub receive_taken-hand :
    (boost : Boost) (written : Bool) (ts : List Card) (s : Seat) (k : Klient)
    → length ts ≡ 4
    → IsTrickNr k.trick_number
    → NoTwice (k.my_cards ++ k.played_cards)
    → let k' =
        (receive boost written
          (taken_message k.trick_number (map card_text ts) (seat_text s))
          k).0 in
      (k'.trick_number ≡ k.trick_number + 1)
      × (k'.played_cards ≡ [])
      × (k'.taken_tricks ≡ (
          if get_or (seat_text s) 0 0 == get_or k.seat 0 0
          then k.taken_tricks ++ map card_text ts ∷ []
          else k.taken_tricks))
      × ((z : Bytes)
          → Holds k'.my_cards z
            ↔ (Holds (k.my_cards ++ k.played_cards) z × (¬ Holds (map card_text ts) z)))
receive_taken-hand boost written ts s k four r once =
    let e =
      ap (λ p. p.0) (receive-taken boost written ts s k four)
      ∙ receive_taken-after_trick boost ts s k r in
    (
      ap (λ q. q.trick_number) e,
      ap (λ q. q.played_cards) e,
      ap (λ q. q.taken_tricks) e,
      λ z.
          subst
            (λ cards.
              Holds cards z
              ↔ (Holds (k.my_cards ++ k.played_cards) z × (¬ Holds (map card_text ts) z)))
            (sym (ap (λ q. q.my_cards) e))
            (drop_cards-Holds (map card_text ts) (k.my_cards ++ k.played_cards) once z),
    )
