-- ===== src/Server.antt =====
-- serwer.h and serwer.cpp: the state that the threads share, and a client's thread of the server.
-- The lock `memory_mutex` makes each access to the shared state one step. What the kernel answers
-- to a write on a socket or on a pipe is taken from a list: `true` is a complete write.
pub mod Play
pub mod Reserve
pub mod Poll
pub mod Deal
pub mod Barrier
pub mod Kept
pub mod Closing
pub mod Connections
pub mod Running
use kierki_sik.Prelude.{
  ℕ, ◌^◌, ◌%◌, zero, suc, ◌-◌, ◌*◌, ◌≡◌, refl, List, [], ◌∷◌, ◌++◌, Bool, true, false, not, Option,
  none, some, Bytes, codes, same, if◌then◌else◌, ◌&&◌, ◌||◌, get_or,
}
use kierki_sik.Prelude.Int.{ℤ, pos}
use kierki_sik.StdMap.{at_or, lookup, assign}

-- `map<string, int16_t> seats_to_array`, by key.
abbrev pub seats_to_array : List (Bytes × ℕ)
seats_to_array =
    (codes "E", 1) ∷ (codes "K", 4) ∷ (codes "N", 0) ∷ (codes "S", 2) ∷ (codes "W", 3) ∷ []

unfoldable pub seat_index : Bytes → ℕ
unfolding at_or lookup
seat_index seat = at_or 0 seat seats_to_array

-- common.h: the one-character messages on the pipes.
pub data Signal : Type 0 where
  disconnected card_play barrier_response scores taken deal_signal end_signal barrier_end : Signal

pub record Serwer : Type 0 where
  pub timeout : ℕ
  pub occupied : ℕ
  -- `none` stands for -1, a free seat.
  pub seats_status : List (Bytes × Option ℕ)
  pub cards_on_table : List Bytes
  pub round_scores : List (Bytes × ℤ)
  pub total_scores : List (Bytes × ℤ)
  pub trick_number : ℕ
  pub cards : List (List Bytes)
  pub deal : List (List Bytes)
  pub taken_tricks : List (List Bytes)
  pub taken_takers : List Bytes
  pub deal_starter : Bytes
  pub trick_type_global : ℕ
  pub start_seat_global : Bytes
  pub last_taker : Bytes
  pub player_turn : Bytes
  pub b_is_barrier_ongoing : Bool
  pub barrier_messages : List (List Bytes)

abbrev pub no_scores : List (Bytes × ℤ)
no_scores = (codes "E", pos 0) ∷ (codes "N", pos 0) ∷ (codes "S", pos 0) ∷ (codes "W", pos 0) ∷ []

-- The constructor; `trick_type` stands for what the memory of `trick_type_global` holds. `timeout` is an
-- int32_t: a product from 2^31 on, for a timeout of more than 24 days, wraps to a number that the
-- program reads as a negative one.
unfoldable pub new_serwer : ℕ → ℕ → Serwer
new_serwer timeout trick_type = record {
  timeout = timeout * 1000 % 2 ^ 32;
  occupied = 0;
  seats_status = (codes "E", none) ∷ (codes "N", none) ∷ (codes "S", none) ∷ (codes "W", none) ∷ [];
  cards_on_table = [];
  round_scores = no_scores;
  total_scores = no_scores;
  trick_number = 0;
  cards = [] ∷ [] ∷ [] ∷ [] ∷ [];
  deal = [] ∷ [] ∷ [] ∷ [] ∷ [];
  taken_tricks = [];
  taken_takers = [];
  deal_starter = [];
  trick_type_global = trick_type;
  start_seat_global = [];
  last_taker = [];
  player_turn = codes "x";
  b_is_barrier_ongoing = false;
  barrier_messages = [] ∷ [] ∷ [] ∷ [] ∷ [];
}

-- What the thread does to the outside.
pub data Event : Type 0 where
  sent : ℕ → Bytes → Event
  notified : ℕ → Signal → Event
  closed : ℕ → Event
  reported : Bytes → Event

-- The variables of one client's thread.
pub record Client : Type 0 where
  pub client_fd : ℕ
  pub seat : Bytes
  pub b_was_destined_to_play : Bool
  pub b_is_barrier : Bool
  pub current_trick : ℕ
  pub timeout_copy : ℕ

pub record World : Type 0 where
  pub server : Serwer
  pub client : Client
  pub events : List Event
  pub answers : List Bool

-- How a function of the thread ends: it returns 0 or 1 and goes on, it returns -1 or closes the
-- thread, or it lets an exception escape.
pub data Flow : Type 0 where
  going ended crashed : World → Flow

infixl 5 ◌>>=◌
abbrev pub ◌>>=◌ : Flow → (World → Flow) → Flow
going w >>= f = f w
ended w >>= f = ended w
crashed w >>= f = crashed w

-- The next answer of the kernel; a list that has run out refuses.
abbrev pub answer : List Bool → Bool
answer [] = false
answer (b ∷ bs) = b

abbrev pub later : List Bool → List Bool
later [] = []
later (b ∷ bs) = bs

abbrev pub emit : Event → World → World
emit e w = record w { events = w.events ++ e ∷ [] }

abbrev pub with_server : Serwer → World → World
with_server s w = record w { server = s }

-- `memory_mutex` held: the seat is given up.
unfoldable pub leave : Bytes → Bool → Serwer → Serwer
leave seat b_was_ended_by_server s =
    if b_was_ended_by_server then record s { occupied = s.occupied - 1 } else record s {
      occupied = s.occupied - 1;
      b_is_barrier_ongoing = true;
      seats_status = assign seat none s.seats_status;
    }

abbrev pub report_error : Bytes → World → World
report_error [] w = w
report_error (c ∷ message) w = emit (reported (c ∷ message)) w

-- A byte on the pipe towards the server's main thread; true if it was written.
abbrev pub notify : Signal → World → World
notify m w = record w {
  events = w.events ++ notified (seat_index w.client.seat) m ∷ [];
  answers = later w.answers;
}

-- `close_thread`: the descriptor is the client's.
unfoldable pub close_thread : Bytes → Bool → Bool → World → World
close_thread error_message b_was_occupying b_was_ended_by_server w =
    let w1 = report_error error_message w in
    let w2 =
      if b_was_occupying
      then with_server (leave w.client.seat b_was_ended_by_server w1.server) w1
      else w1 in
    let w3 =
      if not b_was_ended_by_server && (b_was_occupying || same w.client.seat (codes "K"))
      then if answer w2.answers
        then notify disconnected w2
        else emit (reported (codes "Failed to notify server."))
            (record w2 { answers = later w2.answers })
      else w2 in
    emit (closed w.client.client_fd) w3

-- `senders::send_*` on the client's socket with `assert_client_write_socket` behind it.
unfoldable pub send : Bool → Bytes → World → Flow
unfolding close_thread leave
send b_was_occupying msg w =
    if answer w.answers
    then going (record w {
      events = w.events ++ sent w.client.client_fd msg ∷ [];
      answers = later w.answers;
    })
    else ended (
        close_thread (codes "Failed to send message to the client.") b_was_occupying false
          (record w { answers = later w.answers }))

-- `write_to_pipe` towards the server with `assert_client_write_pipe` behind it.
unfoldable pub signal : Signal → World → Flow
unfolding close_thread leave
signal m w =
    if answer w.answers
    then going (notify m w)
    else ended (
        close_thread (codes "Failed to notify server.") true false
          (record w { answers = later w.answers }))
