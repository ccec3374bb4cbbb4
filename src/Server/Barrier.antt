-- ===== src/Server/Barrier.antt =====
-- serwer.cpp, `Serwer::barrier`: the server's main thread and the four clients' threads around a
-- barrier. A pipe is the list of the messages in it. A step is one client's
-- thread's section under the lock with the write that follows it, or a round of the main thread's
-- loop; the steps of the five threads interleave in any order.
pub mod Meeting
pub mod Rounds
pub mod Arrival
pub mod Runs
pub mod Leaving
use kierki_sik.Prelude.{
  ℕ, ◌+◌, ◌≡◌, List, [], ◌∷◌, ◌++◌, Bool, true, false, if◌then◌else◌, ◌==◌, ltb,
}
use kierki_sik.Seats.{Seat, north, east, south, west, seat_text}
use kierki_sik.Server.{
  Serwer, Signal, leave, disconnected, card_play, barrier_response, scores, taken, deal_signal,
  end_signal, barrier_end,
}

-- The shared state, the pipes towards the clients' threads (`server_write_pipes`) and from them
-- (`server_read_pipes`), the pipe from the connection thread, and which clients' threads have counted
-- themselves in.
pub record Room : Type 0 where
  pub server : Serwer
  pub orders : Seat → List Signal
  pub reports : Seat → List Signal
  pub connection : List Signal
  pub arrived : Seat → Bool

-- One entry of an array indexed by the seats.
abbrev pub put {ℓ} : {A : Type ℓ} → Seat → A → (Seat → A) → Seat → A
put north v f north = v
put east v f east = v
put south v f south = v
put west v f west = v
put _ v f y = f y

-- The main thread writes a byte to each client's thread.
abbrev pub tell_all : Signal → Room → Room
tell_all m r = record r { orders = λ x. r.orders x ++ m ∷ [] }

-- The start of a barrier: the flag, the count, and BARRIER_RESPONSE to everyone.
unfoldable pub begin_barrier : Room → Room
begin_barrier r =
    tell_all barrier_response
      (record r { server = record (r.server) { b_is_barrier_ongoing = true; occupied = 0 } })

-- `client_poll` on BARRIER_RESPONSE, the first message of the pipe with `rest` behind it: the thread
-- counts itself in, and the fourth tells the main thread.
unfoldable pub arrive : Seat → List Signal → Room → Room
arrive x rest r = record r {
  server = record (r.server) { occupied = r.server.occupied + 1 };
  orders = put x rest r.orders;
  reports =
      if r.server.occupied + 1 == 4
      then put x (r.reports x ++ barrier_response ∷ []) r.reports
      else r.reports;
  arrived = put x true r.arrived;
}

-- `close_thread` of a client's thread: its seat is free, and the main thread is told.
unfoldable pub depart : Seat → Room → Room
depart x r = record r {
  server = leave (seat_text x) false r.server;
  reports = put x (r.reports x ++ disconnected ∷ []) r.reports;
  arrived = put x false r.arrived;
}

-- How a round of the main thread's loop ends: it goes on waiting, the barrier is over, or the server
-- closes.
pub data Round : Type 0 where
  waiting over : Room → Round
  closing : Round

abbrev pub and_then : Round → (Room → Round) → Round
and_then (waiting r) f = f r
and_then (over r) f = over r
and_then closing f = closing

-- One byte from the thread of seat `x`, if its pipe holds one.
abbrev pub heed : Seat → Signal → Room → Round
heed x disconnected r =
    waiting (record r { orders = put x (r.orders x ++ barrier_response ∷ []) r.orders })
heed x barrier_response r = waiting r
heed x _ r = closing

unfoldable pub read_report : Seat → Room → Round
read_report x r = elim (r.reports x) [
  | [] ↦ waiting r
  | m ∷ rest ↦ heed x m (record r { reports = put x rest r.reports })
]

-- The connection thread's pipe: DISCONNECTED and any other message but BARRIER_RESPONSE close the
-- server.
abbrev pub heed_connection : List Signal → Room → Round
heed_connection [] r = waiting r
heed_connection (barrier_response ∷ rest) r = waiting (record r { connection = rest })
heed_connection (_ ∷ rest) r = closing

-- `waiting = 4 - occupied`, the flag, and BARRIER_END to everyone when nobody is missing.
unfoldable pub recount : Room → Round
recount r =
    if ltb r.server.occupied 4
    then waiting r
    else if r.server.occupied == 4
    then over (
        tell_all barrier_end
          (record r { server = record (r.server) { b_is_barrier_ongoing = false } }))
    else over (tell_all barrier_end r)

-- One round of the loop.
unfoldable pub barrier_round : Room → Round
barrier_round r =
    and_then
      (and_then
        (and_then (and_then (and_then (read_report north r) (read_report east)) (read_report south))
          (read_report west))
        (λ r'. heed_connection r'.connection r'))
      recount

-- `poll` returns when a pipe holds a message.
pub data Readable (r : Room) : Type 0 where
  from_client : (x : Seat) (m : Signal) (rest : List Signal) → r.reports x ≡ m ∷ rest → Readable r
  from_connection : (m : Signal) (rest : List Signal) → r.connection ≡ m ∷ rest → Readable r

-- A step of one of the five threads while the barrier lasts.
pub data Step : Room → Room → Type 0 where
  arrives :
      (x : Seat) (rest : List Signal) (r : Room)
      → r.orders x ≡ barrier_response ∷ rest
      → Step r (arrive x rest r)
  waits : (r r' : Room) → Readable r → barrier_round r ≡ waiting r' → Step r r'
  departs : (x : Seat) (r : Room) → Step r (depart x r)

pub data Run : Room → Room → Type 0 where
  here : (r : Room) → Run r r
  then_step : (r s t : Room) → Run r s → Step s t → Run r t

-- A run in which no client leaves, and its length.
abbrev pub Stays : {r s : Room} → Run r s → Type 0
Stays (here r) = Unit {0}
Stays (then_step r s t run (arrives x rest s' e)) = Stays run
Stays (then_step r s t run (waits s' t' q e)) = Stays run
Stays (then_step r s t run (departs x s')) = ⊥

abbrev pub steps : {r s : Room} → Run r s → ℕ
steps (here r) = 0
steps (then_step r s t run step) = steps run + 1

-- Pipes that were just created, and nobody there.
abbrev pub empty_room : Serwer → Room
empty_room s = record {
  server = s;
  orders = λ _. [];
  reports = λ _. [];
  connection = [];
  arrived = λ _. false;
}
