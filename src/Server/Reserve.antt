-- ===== src/Server/Reserve.antt =====
-- serwer.cpp, `Serwer::reserve_spot`: a new client asks for a seat and is told what it missed. No
-- other thread takes a step between its locked sections here.
pub mod Seating
pub mod Welcome
pub mod Greeting
use kierki_sik.Prelude.{
  ℕ, zero, suc, ◌+◌, List, [], ◌∷◌, ◌++◌, Bool, true, false, Option, none, some, Bytes, codes, same,
  if◌then◌else◌, ◌==◌, get_or, length, substr,
}
use kierki_sik.Regex.{Boost, iam_check}
use kierki_sik.StdMap.{lookup, assign}
use kierki_sik.Messages.{busy_message, deal_message, taken_message, trick_message}
use kierki_sik.Server.{
  Serwer, Client, World, Flow, going, ended, crashed, ◌>>=◌, seat_index, send, close_thread, closed,
  emit, report_error, with_server,
}

-- How `read_from_socket` ends before the seat is known: the peer has left, an error, a message.
pub data Hello : Type 0 where
  left failed : Hello
  message : Bytes → Hello

-- `-1`, `0` and `1`: an error, no seat, a seat.
pub data Reserved : Type 0 where
  refused busy : World → Reserved
  seated : Bool → World → Reserved

-- `seats_status[seat] == -1`: no descriptor is stored for the seat.
unfoldable pub is_free : Bytes → Serwer → Bool
unfolding lookup
is_free seat s = elim (lookup seat s.seats_status) [
  | none ↦ false
  | some fd ↦ elim fd [ none ↦ true | some n ↦ false ]
]

-- `for (auto& [key, value] : seats_status) if (value != -1) occupied_seats += key`.
unfoldable pub occupied_seats : List (Bytes × Option ℕ) → Bytes
occupied_seats [] = []
occupied_seats ((seat, none) ∷ m) = occupied_seats m
occupied_seats ((seat, some fd) ∷ m) = seat ++ occupied_seats m

-- The tricks taken so far, from number `i` on; the first list that ends ends the loop.
unfoldable pub send_taken_tricks : ℕ → List (List Bytes) → List Bytes → World → Flow
send_taken_tricks i [] takers w = going w
send_taken_tricks i (trick ∷ tricks) [] w = crashed w
send_taken_tricks i (trick ∷ tricks) (taker ∷ takers) w =
    send false (taken_message i trick taker) w >>= send_taken_tricks (i + 1) tricks takers

-- A player whose turn it is gets the request again; the flag is `b_is_my_turn`.
unfoldable pub send_turn : Bytes → World → Flow
send_turn seat w =
    if same w.server.player_turn seat
    then send false (trick_message w.server.trick_number w.server.cards_on_table)
        (record w { client = record (w.client) { b_was_destined_to_play = true } })
    else going w

-- The deal, the tricks and the request, if a deal has been read from the file.
unfoldable pub send_history : Bytes → World → Flow
send_history seat w =
    if length (get_or w.server.deal 0 []) == 0
    then going w
    else send false
        (deal_message w.server.trick_type_global w.server.deal_starter
          (get_or w.server.deal (seat_index seat) []))
        w
      >>= send_taken_tricks 1 w.server.taken_tricks w.server.taken_takers
      >>= send_turn seat

unfoldable pub take_seat : Bytes → World → World
take_seat seat w = record w {
  server = record (w.server) {
    seats_status = assign seat (some w.client.client_fd) w.server.seats_status;
  };
  client = record (w.client) { seat = seat };
}

-- The last section reads `b_is_barrier_ongoing`.
abbrev pub join : Flow → Reserved
join (going w) =
    seated w.server.b_is_barrier_ongoing
      (record w { client = record (w.client) { b_is_barrier = w.server.b_is_barrier_ongoing } })
join (ended w) = refused w
join (crashed w) = refused w

abbrev pub turn_away : Flow → Reserved
turn_away (going w) = busy (emit (closed w.client.client_fd) w)
turn_away (ended w) = refused w
turn_away (crashed w) = refused w

unfoldable pub ask_seat : Bytes → World → Reserved
ask_seat seat w =
    if is_free seat w.server
    then join (send_history seat (take_seat seat w))
    else turn_away (
        send false (busy_message (occupied_seats w.server.seats_status))
          (record w { client = record (w.client) { seat = seat } }))

unfoldable pub reserve_spot : Boost → Hello → World → Reserved
reserve_spot boost left w = refused (close_thread (codes "Client disconnected.") false false w)
reserve_spot boost failed w =
    refused (close_thread (codes "Failed to read from client.") false false w)
reserve_spot boost (message m) w =
    if iam_check boost m
    then ask_seat (substr m 3 1) w
    else refused
        (emit (closed w.client.client_fd) (report_error (codes "Client send invalid message.") w))
