-- ===== src/Klient/Dealt.antt =====
-- The client on a DEAL message.
use kierki_sik.Prelude.{
  ℕ, ◌-◌, ◌≡◌, refl, List, [], map, Bool, false, Bytes, codes, arith, length, substr,
}
use kierki_sik.Cards.{Card, card_text}
use kierki_sik.Seats.{Seat, seat_text, north}
use kierki_sik.Regex.{Boost, busy_check}
use kierki_sik.Messages.{deal_message}
use kierki_sik.Messages.TrickNumbers.{IsDealType}
use kierki_sik.Messages.Repeats.{cards_text}
use kierki_sik.Messages.Numbers.{short_number, cut_end}
use kierki_sik.Messages.Language.{deal_check_iff, extract_cards-concat}
use kierki_sik.Klient.{Klient, receive, receive_deal}
use kierki_sik.Klient.Dispatch.{other_word}

deal_not_busy :
    (boost : Boost) (t : ℕ) (seat : Bytes) (cards : List Bytes)
    → busy_check boost (deal_message t seat cards) ≡ false
unfolding busy_check
deal_not_busy boost t seat cards = other_word boost (codes "BUSY") _ _ (λ u e. ground arith)

cut_deal :
    (t : ℕ) (s : Seat) (cs : List Card)
    → IsDealType t
    → let message = deal_message t (seat_text s) (map card_text cs) in
      substr message 6 (length message - 8) ≡ cards_text cs
cut_deal t north cs r =
    rw (short_number t r.0 (omega (arith, r.1))) (cut_end (cards_text cs) _ (omega arith))
cut_deal t _ cs r =
    rw (short_number t r.0 (omega (arith, r.1))) (cut_end (cards_text cs) _ (omega arith))

-- A client that is dealt thirteen cards in a deal of type 1 to 7 holds just these, in their
-- order, and starts with the first trick, with no tricks and no scores of the deal.
pub receive_deal-hand :
    (boost : Boost) (written : Bool) (t : ℕ) (s : Seat) (cs : List Card) (k : Klient)
    → IsDealType t
    → length cs ≡ 13
    → (receive boost written (deal_message t (seat_text s) (map card_text cs)) k).0 ≡ record k {
      trick_number = 1;
      got_score = false;
      got_total = false;
      taken_tricks = [];
      my_cards = map card_text cs;
    }
unfolding receive receive_deal
receive_deal-hand boost written t s cs k r thirteen =
    rw
      (
        deal_not_busy boost t (seat_text s) (map card_text cs),
        (deal_check_iff boost (deal_message t (seat_text s) (map card_text cs))).1
            (((t, r), (s, (cs, thirteen))), refl),
        cut_deal t s cs r,
        extract_cards-concat boost cs,
      )
      refl
