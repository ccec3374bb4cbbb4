-- ===== src/Interplay/Dealing.antt =====
-- The DEAL message of the server and the hand that the client reads off it.
use kierki_sik.Prelude.{◌≡◌, refl, ap, List, [], ◌∷◌, ◌++◌, map, true, Bytes, length}
use kierki_sik.Cards.{Card, card_text}
use kierki_sik.Seats.{Seat, seat_text}
use kierki_sik.Regex.{Boost}
use kierki_sik.Messages.{deal_message}
use kierki_sik.Messages.TrickNumbers.{IsDealType}
use kierki_sik.Klient.{Klient, receive}
use kierki_sik.Klient.Dealt.{receive_deal-hand}
use kierki_sik.Server.{World, going, sent, send, answer, later, deal_signal}
use kierki_sik.Server.Play.{hand_of}
use kierki_sik.Server.Poll.{from_server, order}

-- When the main thread orders DEAL in a deal of type 1 to 7, with thirteen cards in the hand,
-- and the write succeeds, the client's thread sends one message, and the client that reads it
-- holds the very cards that the server keeps for its seat.
pub from_server-receive_deal :
    (boost : Boost) (k : Klient) (w : World) (s : Seat) (cs : List Card)
    → IsDealType w.server.trick_type_global
    → w.server.last_taker ≡ seat_text s
    → hand_of w ≡ map card_text cs
    → length cs ≡ 13
    → answer w.answers ≡ true
    → (m : Bytes) × (from_server boost (order deal_signal) w
        ≡ going (record w {
          events = w.events ++ sent w.client.client_fd m ∷ [];
          answers = later w.answers;
        }))
      × ((receive boost true m k).0.my_cards ≡ hand_of w)
unfolding from_server send
from_server-receive_deal boost k w s cs r starter hand thirteen told =
    let m = deal_message w.server.trick_type_global w.server.last_taker (hand_of w) in
    (
      m,
      rw told refl,
      rw (starter, hand)
          (ap (λ q. q.my_cards)
            (receive_deal-hand boost true w.server.trick_type_global s cs k r thirteen)),
    )
