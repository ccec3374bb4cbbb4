-- ===== src/Server/Play.antt =====
-- serwer.cpp, `Serwer::parse_message`: a client's TRICK message.
pub mod Split
pub mod Legal
pub mod Verdicts
pub mod Violations
use kierki_sik.Prelude.{
  ℕ, zero, suc, ◌+◌, ◌-◌, ◌≡◌, refl, List, [], ◌∷◌, ◌++◌, Bool, true, false, not, Option, none,
  some, Bytes, codes, same, last_char, if◌then◌else◌, ◌&&◌, ◌||◌, ◌==◌, ltb, get_or, set, length,
  substr, take, drop,
}
use kierki_sik.Decimal.{stoi}
use kierki_sik.Regex.{Boost, trick_client_check}
use kierki_sik.Messages.{wrong_message}
use kierki_sik.Server.{
  Serwer, Client, World, Flow, going, ended, crashed, ◌>>=◌, seat_index, send, signal, close_thread,
  card_play, with_server,
}

-- The number and the card of the message, cut at the place that the current trick's number has;
-- `none` is the exception of `stoi`.
unfoldable pub split_play : ℕ → Bytes → Option (ℕ × Bytes)
split_play current_trick message =
    if ltb current_trick 10
    then elim (stoi (substr message 5 1)) [
      | none ↦ none
      | some n ↦ some (n, substr message 6 (length message - 8))
    ]
    else elim (stoi (substr message 5 2)) [
      | none ↦ none
      | some n ↦ some (n, substr message 7 (length message - 9))
    ]

-- `find(hand.begin(), hand.end(), card) != hand.end()`.
unfoldable pub has_card : Bytes → List Bytes → Bool
has_card card [] = false
has_card card (c ∷ hand) = same c card || has_card card hand

-- `hand.erase(find(...))`.
unfoldable pub erase_card : Bytes → List Bytes → List Bytes
erase_card card [] = []
erase_card card (c ∷ hand) = if same c card then hand else c ∷ erase_card card hand

-- The loop that looks for a card of the main color.
unfoldable pub has_color : ℕ → List Bytes → Bool
has_color main_color [] = false
has_color main_color (c ∷ hand) = last_char c == main_color || has_color main_color hand

-- `b_played_right_color`: false for another trick; on an empty table any card; otherwise the color
-- of the first card, or another one when the hand has none of it.
unfoldable pub right_color : List Bytes → List Bytes → Bool → Bytes → Bool
unfolding has_color
right_color [] hand right_trick card = right_trick
right_color (first ∷ table) hand right_trick card =
    if right_trick
    then if last_char first == last_char card then true else not (has_color (last_char first) hand)
    else false

abbrev pub hand_of : World → List Bytes
hand_of w = get_or w.server.cards (seat_index w.client.seat) []

-- A valid card: the hand, the table and the turn change under the lock, the server is told, and the
-- client is no longer awaited.
unfoldable pub accept_card : Bytes → World → Flow
accept_card card w =
    signal card_play (
      with_server
        (record (w.server) {
          cards = set w.server.cards (seat_index w.client.seat) (erase_card card (hand_of w));
          cards_on_table = w.server.cards_on_table ++ card ∷ [];
          player_turn = codes "x";
        })
        w)
    >>= λ w'. going (record w' { client = record (w'.client) { b_was_destined_to_play = false } })

unfoldable pub refuse_card : ℕ → World → Flow
refuse_card current_trick w = send true (wrong_message current_trick) w

unfoldable pub judge_card : ℕ → ℕ → Bytes → World → Flow
judge_card current_trick extracted_trick card w =
    if has_card card (hand_of w)
      && right_color w.server.cards_on_table (hand_of w) (extracted_trick == current_trick) card
    then accept_card card w
    else refuse_card current_trick w

unfoldable pub play_in_turn : Bytes → ℕ → World → Flow
play_in_turn message current_trick w = elim (split_play current_trick message) [
  | none ↦ crashed w
  | some (extracted_trick, card) ↦ judge_card current_trick extracted_trick card w
]

abbrev pub restart_timeout : World → World
restart_timeout w = record w { client = record (w.client) { timeout_copy = w.server.timeout } }

unfoldable pub parse_message : Boost → Bytes → ℕ → World → Flow
parse_message boost message current_trick w =
    if trick_client_check boost message
    then if w.client.b_was_destined_to_play
      then play_in_turn message current_trick (restart_timeout w)
      else send true (wrong_message current_trick) w
    else ended (close_thread (codes "Client send invalid message.") true false w)
