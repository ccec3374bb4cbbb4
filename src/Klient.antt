-- ===== src/Klient.antt =====
-- klient.h and klient.cpp: the client's state, its strategy, and what its worker thread does with a
-- message of the server and with a card of the player.
pub mod Printer
pub mod Strategy
pub mod Dispatch
pub mod Hand
pub mod Taken
pub mod Dealt
pub mod Finish
pub mod Commands
pub mod Worker
pub mod Running
use kierki_sik.Prelude.{
  ℕ, zero, suc, ◌+◌, ◌-◌, List, [], ◌∷◌, ◌++◌, Bool, true, false, not, ◌&&◌, ◌||◌, Option, none,
  some, Bytes, codes, same, last_char, get_or, ltb, leb, ◌==◌, if◌then◌else◌, length, substr,
}
use kierki_sik.Regex.{
  Boost, busy_check, deal_check, wrong_check, taken_check, score_check, total_check, trick_check,
  extract_cards,
}
use kierki_sik.Messages.{trick_message}
use Printer.{
  print_busy, print_deal, print_wrong, print_taken, print_score, print_total, print_trick,
}

pub record Klient : Type 0 where
  pub seat : Bytes
  pub is_ai : Bool
  pub messages_to_send : List Bytes
  pub taken_tricks : List (List Bytes)
  pub my_cards : List Bytes
  pub played_cards : List Bytes
  pub trick_number : ℕ
  pub got_score : Bool
  pub got_total : Bool
  pub expected_color : Bytes

-- What ends the worker: the byte that it writes for the main thread.
pub data Ending : Type 0 where
  normal_end disconnected server_disconnect : Ending

pub data Event : Type 0 where
  shown sent : Bytes → Event
  finished : Ending → Event

-- The last card and the cards before it (`my_cards[size - 1]` and `pop_back`).
unfoldable pub last_card : List Bytes → Bytes
last_card [] = []
last_card (c ∷ []) = c
last_card (c ∷ d ∷ cards) = last_card (d ∷ cards)

unfoldable pub pop_back : List Bytes → List Bytes
pop_back [] = []
pop_back (c ∷ []) = []
pop_back (c ∷ d ∷ cards) = c ∷ pop_back (d ∷ cards)

-- The loop of `strategy`: the first card of a color, and the cards without it.
unfoldable pub first_of_color : ℕ → List Bytes → Option (Bytes × List Bytes)
first_of_color color [] = none
first_of_color color (c ∷ cards) =
    if last_char c == color
    then some (c, cards)
    else elim (first_of_color color cards) [ none ↦ none | some (d, rest) ↦ some (d, c ∷ rest) ]

abbrev pub play : Bytes → List Bytes → Klient → Bytes × Klient
play card rest k = (card, record k { my_cards = rest; played_cards = k.played_cards ++ card ∷ [] })

abbrev pub play_last : Klient → Bytes × Klient
play_last k = play (last_card k.my_cards) (pop_back k.my_cards) k

-- `Klient::strategy`: the card to play and the state afterwards.
unfoldable pub strategy : Bytes → Klient → Bytes × Klient
strategy [] k = if length k.my_cards == 0 then ([], k) else play_last k
strategy (c ∷ color) k =
    if length k.my_cards == 0 then ([], k) else elim (first_of_color c k.my_cards) [
      | none ↦ play_last k
      | some (card, rest) ↦ play card rest k
    ]

-- `find` and `erase` of one card, if it is there.
unfoldable pub drop_card : Bytes → List Bytes → List Bytes
drop_card card [] = []
drop_card card (c ∷ cards) = if same c card then cards else c ∷ drop_card card cards

-- The loop over the cards of a trick that was taken.
unfoldable pub drop_cards : List Bytes → List Bytes → List Bytes
unfolding drop_card
drop_cards [] cards = cards
drop_cards (c ∷ taken) cards = drop_cards taken (drop_card c cards)

-- A human player is shown the text.
abbrev show : Klient → Bytes → List Event
show k text = if k.is_ai then [] else shown text ∷ []

unfoldable pub receive_deal : Boost → Bytes → Klient → Klient × List Event
receive_deal boost message k = (
  record k {
    trick_number = 1;
    got_score = false;
    got_total = false;
    taken_tricks = [];
    my_cards = extract_cards boost (substr message 6 (length message - 8));
  },
  show k (print_deal boost message),
)

unfoldable pub receive_taken : Boost → Bytes → Klient → Klient × List Event
receive_taken boost message k =
    let cards =
      if ltb k.trick_number 10
      then substr message 6 (length message - 9)
      else substr message 7 (length message - 10) in
    let extracted_cards = extract_cards boost cards in
    let taker = get_or message (length message - 3) 0 in
    (
      record k {
        my_cards = drop_cards extracted_cards (k.my_cards ++ k.played_cards);
        played_cards = [];
        taken_tricks =
            if taker == get_or k.seat 0 0
            then k.taken_tricks ++ extracted_cards ∷ []
            else k.taken_tricks;
        trick_number = k.trick_number + 1;
      },
      show k (print_taken boost message k.trick_number),
    )

-- The color of the first card in a TRICK message; a message of at most nine characters has none.
unfoldable pub trick_color : Boost → Bytes → ℕ → Bytes
trick_color boost message trick_loc =
    if leb (length message) 9
    then []
    else let cards =
        if ltb trick_loc 10
        then substr message 6 (length message - 8)
        else substr message 7 (length message - 9) in
      last_char (get_or (extract_cards boost cards) 0 []) ∷ []

-- `send_trick` with `assert_client_write_socket` behind it; `written` says that the whole message
-- went out.
unfoldable pub send_trick : Bool → ℕ → Bytes → List Event
send_trick written trick_number card =
    if written
    then sent (trick_message trick_number (card ∷ [])) ∷ []
    else finished disconnected ∷ []

unfoldable pub answer_trick : Bool → Bytes → Klient → Klient × List Event
unfolding strategy
answer_trick written color k =
    let (card, k') = strategy color k in (k', send_trick written k.trick_number card)

unfoldable pub receive_trick : Boost → Bool → Bytes → Klient → Klient × List Event
receive_trick boost written message k =
    let color = trick_color boost message k.trick_number in
    if k.is_ai then answer_trick written color (record k { expected_color = color }) else (
      record k { expected_color = color },
      shown (print_trick boost message k.trick_number k.my_cards) ∷ [],
    )

-- The chain of checks on a message of the server.
unfoldable pub receive : Boost → Bool → Bytes → Klient → Klient × List Event
receive boost written message k =
    if busy_check boost message
    then (k, show k (print_busy message) ++ finished normal_end ∷ [])
    else if deal_check boost message
    then receive_deal boost message k
    else if wrong_check boost message
    then (k, show k (print_wrong boost k.trick_number))
    else if taken_check boost message k.trick_number
    then receive_taken boost message k
    else if score_check boost message
    then (record k { got_score = true }, show k (print_score boost message))
    else if total_check boost message
    then (record k { got_total = true }, show k (print_total boost message))
    else if trick_check boost message k.trick_number
    then receive_trick boost written message k
    else (k, [])

-- `find(my_cards.begin(), my_cards.end(), card) != my_cards.end()`.
unfoldable pub holds_card : Bytes → List Bytes → Bool
holds_card card [] = false
holds_card card (c ∷ cards) = same c card || holds_card card cards

-- An automatic player's own card leaves its hand if it may be played.
abbrev retire : Bytes → Klient → Klient
retire card k =
    if k.is_ai
      && holds_card card k.my_cards
      && (last_char card == get_or k.expected_color 0 0 || same k.expected_color [])
    then record k {
      my_cards = drop_card card k.my_cards;
      played_cards = k.played_cards ++ card ∷ [];
      expected_color = codes "none";
    }
    else k

-- A card of the player (`CARD_PLAY` on the pipe): the front of the queue goes to the server. The
-- main thread signals only after it has put a card into the queue, so the queue is not empty.
unfoldable pub send_card : Bool → Klient → Klient × List Event
unfolding drop_card holds_card
send_card written k = elim k.messages_to_send [
  | [] ↦ (k, [])
  | card ∷ rest ↦
      (retire card (record k { messages_to_send = rest }), send_trick written k.trick_number card)
]

-- `assert_client_read_socket`: how the worker ends when the server's socket is closed or fails.
unfoldable pub socket_closed : Klient → Ending
socket_closed k = if k.got_score && k.got_total then normal_end else server_disconnect
