-- ===== src/Tests/Player.antt =====
-- The client on concrete messages.
use kierki_sik.Prelude.{
  ◌≡◌, ◌↔◌, refl, List, [], ◌∷◌, map, true, false, Bytes, codes, arith, same, inl, inr,
}
use kierki_sik.StdMap.{at_or, lookup}
use kierki_sik.Cards.{
  Card, card_text, two, three, four, five, six, seven, eight, nine, ten, jack, queen, king, ace,
  clubs, Rank,
}
use kierki_sik.Seats.{north, east}
use kierki_sik.Messages.{taken_message, trick_message}
use kierki_sik.Regex.Backtracking.{backtracking}
use kierki_sik.Server.{World, going, sent, seat_index, deal_signal}
use kierki_sik.Server.Play.{hand_of}
use kierki_sik.Server.Poll.{from_server, order}
use kierki_sik.Klient.{Klient, receive, send_card}
use kierki_sik.Klient.{sent as put_out}
use kierki_sik.Klient.Strategy.{Holds}
use kierki_sik.Klient.Taken.{receive_taken-hand}
use kierki_sik.Klient.Commands.{read_command, send_card-read_command}
use kierki_sik.Interplay.Dealing.{from_server-receive_deal}
use kierki_sik.Tests.{ace_of_spades, queen_of_spades, two_of_clubs, table_3, east_turn, east_player}

abbrev club : Rank → Card
club r = record { rank = r; suit = clubs }

abbrev all_clubs : List Card
all_clubs =
    map club (
      two ∷ three ∷ four ∷ five ∷ six ∷ seven ∷ eight ∷ nine ∷ ten ∷ jack ∷ queen ∷ king ∷ ace ∷ [])

abbrev with_clubs : World
with_clubs = record (east_turn false) {
  server = record table_3 { cards = [] ∷ map card_text all_clubs ∷ [] ∷ [] ∷ [] };
}

from_server-receive_deal_example :
    (m : Bytes) × (from_server backtracking (order deal_signal) with_clubs
      ≡ going (record with_clubs { events = sent 7 m ∷ []; answers = [] }))
    × ((receive backtracking true m east_player).0.my_cards ≡ hand_of with_clubs)
unfolding seat_index at_or lookup same
from_server-receive_deal_example =
    from_server-receive_deal backtracking east_player with_clubs north all_clubs
      (omega arith, omega arith) refl refl refl refl

-- E has played the ace of spades in the third trick, and takes it.
abbrev waiting_player : Klient
waiting_player = record east_player { my_cards = codes "2H" ∷ []; played_cards = codes "AS" ∷ [] }

abbrev third_trick : List Card
third_trick = queen_of_spades ∷ ace_of_spades ∷ two_of_clubs ∷ club ten ∷ []

receive_taken-hand_example :
    let k' =
      (receive backtracking true
        (taken_message 3 (map card_text third_trick) (codes "E"))
        waiting_player).0 in
    (k'.trick_number ≡ 4)
    × (k'.played_cards ≡ [])
    × (k'.taken_tricks ≡ map card_text third_trick ∷ [])
    × ((z : Bytes)
        → Holds k'.my_cards z
          ↔ (Holds (codes "2H" ∷ codes "AS" ∷ []) z × (¬ Holds (map card_text third_trick) z)))
receive_taken-hand_example =
    receive_taken-hand backtracking true third_trick east waiting_player refl
      (omega arith, omega arith)
      ((λ h. elim h [ inl e ↦ ground arith | inr n ↦ n ]), ((λ h. h), tt))

abbrev human : Klient
human = record east_player { is_ai = false }

send_card-read_command_example :
    send_card true (read_command (codes "!AS") human).0
    ≡ (human, put_out (trick_message 3 (codes "AS" ∷ [])) ∷ [])
send_card-read_command_example = send_card-read_command (codes "AS") human refl refl
