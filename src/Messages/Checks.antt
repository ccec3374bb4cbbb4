-- ===== src/Messages/Checks.antt =====
-- The checks that the server and the client make of each other's messages.
use kierki_sik.Prelude.{ℕ, ◌≡◌, ◌↔◌, [], ◌∷◌, true, Bytes, map}
use kierki_sik.Cards.{Card, card_text}
use kierki_sik.Seats.{Seat, seat_text}
use kierki_sik.Regex.{
  Boost, iam_check, deal_check, trick_check, trick_client_check, wrong_check, taken_check,
}
use kierki_sik.Messages.{iam_message, deal_message, trick_message, wrong_message, taken_message}
use kierki_sik.Messages.Language.{
  TrickNr, DealType, Exactly, AtMost, iam_check_iff, trick_client_check_iff, deal_check_iff,
  wrong_check_iff, trick_check_iff, taken_check_iff,
}

-- What the server takes from a client: `IAM_check` accepts the greetings of the four seats, and
-- `TRICK_client_check` the plays of one card in one of the tricks 1 to 13, and nothing else.
pub client_checks_iff :
    (boost : Boost) (s : Bytes)
    → ((iam_check boost s ≡ true) ↔ ((x : Seat) × (s ≡ iam_message (seat_text x))))
      × ((trick_client_check boost s ≡ true)
          ↔ ((p : TrickNr × Card) × (s ≡ trick_message p.0.0 (card_text p.1 ∷ []))))
client_checks_iff boost s = (iam_check_iff boost s, trick_client_check_iff boost s)

-- What a client in trick `n` takes from the server: `DEAL_check` accepts the DEAL messages of a type
-- from 1 to 7, a seat and thirteen cards; `WRONG_check` the WRONG messages of the tricks 1 to 13;
-- `TRICK_check` the requests of trick `n` that show at most three cards; `TAKEN_check` the TAKEN
-- messages of trick `n` with four cards and a seat. None of them accepts anything else.
pub server_checks_iff :
    (boost : Boost) (s : Bytes) (n : ℕ)
    → ((deal_check boost s ≡ true) ↔ (
        (p : DealType × (Seat × Exactly 13)) × (s
          ≡ deal_message p.0.0 (seat_text p.1.0) (map card_text p.1.1.0))))
      × ((wrong_check boost s ≡ true) ↔ ((k : TrickNr) × (s ≡ wrong_message k.0)))
      × ((trick_check boost s n ≡ true)
          ↔ ((cs : AtMost 3) × (s ≡ trick_message n (map card_text cs.0))))
      × ((taken_check boost s n ≡ true)
          ↔ ((p : Exactly 4 × Seat) × (s ≡ taken_message n (map card_text p.0.0) (seat_text p.1))))
server_checks_iff boost s n = (
  deal_check_iff boost s,
  wrong_check_iff boost s,
  trick_check_iff boost s n,
  taken_check_iff boost s n,
)
