-- ===== src/Server/Poll.antt =====
-- serwer.cpp, `Serwer::client_poll`: one round of the loop of a client's thread. What `poll` and the
-- reads behind it report is an argument; no other thread takes a step within a round.
pub mod Barrier
use kierki_sik.Prelude.{
  ℕ, zero, suc, ◌+◌, ◌-◌, List, [], ◌∷◌, ◌++◌, Bool, true, false, not, ◌&&◌, Option, none, some,
  Bytes, codes, if◌then◌else◌, ◌==◌, get_or, set,
}
use kierki_sik.Regex.{Boost}
use kierki_sik.Messages.{deal_message, taken_message, trick_message, score_message, total_message}
use kierki_sik.Server.{
  Serwer, Client, World, Flow, Signal, going, ended, crashed, ◌>>=◌, seat_index, send, signal,
  close_thread, disconnected, card_play, barrier_response, scores, taken, deal_signal, end_signal,
  barrier_end,
}
use kierki_sik.Server.Play.{parse_message}
use kierki_sik.Server.Reserve.{Hello, reserve_spot, refused, busy, seated}

-- The client's socket after a poll: no event, a read, an error event.
pub data FromClient : Type 0 where
  quiet left failed socket_error : FromClient
  message : Bytes → FromClient

-- The pipe from the server's main thread.
pub data FromServer : Type 0 where
  silent pipe_closed pipe_failed pipe_error : FromServer
  order : Signal → FromServer

pub data Polled : Type 0 where
  timed_out poll_failed : Polled
  ready : FromClient → FromServer → ℕ → Polled

abbrev pub queue_of : World → List Bytes
queue_of w = get_or w.server.barrier_messages (seat_index w.client.seat) []

abbrev pub with_queue : List Bytes → World → World
with_queue queue w = record w {
  server = record (w.server) {
    barrier_messages = set w.server.barrier_messages (seat_index w.client.seat) queue;
  };
}

-- The messages kept during a barrier, oldest first: each leaves the queue before it is parsed.
unfoldable pub drain : Boost → ℕ → List Bytes → World → Flow
drain boost current_trick [] w = going w
drain boost current_trick (m ∷ queue) w =
    parse_message boost m current_trick (with_queue queue w) >>= drain boost current_trick queue

abbrev pub with_barrier : Bool → World → World
with_barrier b w = record w { client = record (w.client) { b_is_barrier = b } }

-- The start of a round: the trick's number, the barrier, and the messages kept.
unfoldable pub start_round : Boost → World → Flow
unfolding drain
start_round boost w =
    let w1 = record w {
      client = record (w.client) {
        current_trick = w.server.trick_number;
        b_is_barrier = if w.server.b_is_barrier_ongoing then true else w.client.b_is_barrier;
      };
    } in
    if w1.client.b_is_barrier
    then going w1
    else drain boost w1.client.current_trick (queue_of w1) w1

-- TRICK for the trick `n`, with the timeout started again.
unfoldable pub request_card : ℕ → World → Flow
request_card n w =
    send true (trick_message n w.server.cards_on_table)
      (record w { client = record (w.client) { timeout_copy = w.server.timeout } })

unfoldable pub from_client : Boost → FromClient → ℕ → World → Flow
unfolding request_card
from_client boost (message m) passed w =
    if w.client.b_is_barrier
    then going (with_queue (queue_of w ++ m ∷ []) w)
    else parse_message boost m w.client.current_trick w
from_client boost left passed w = ended (close_thread (codes "Client disconnected.") true false w)
from_client boost failed passed w =
    ended (close_thread (codes "Failed to read from client.") true false w)
from_client boost socket_error passed w =
    ended (close_thread (codes "Poll error on client socket.") true false w)
from_client boost quiet passed w =
    if w.client.b_was_destined_to_play
    then if w.client.timeout_copy - passed == 0
      then request_card w.client.current_trick w
      else going (record w {
        client = record (w.client) { timeout_copy = w.client.timeout_copy - passed };
      })
    else going w

-- `++occupied`, and the fourth to arrive tells the main thread.
unfoldable pub enter_barrier : World → Flow
enter_barrier w =
    let w1 = record w {
      server = record (w.server) { occupied = w.server.occupied + 1 };
      client = record (w.client) { b_is_barrier = true };
    } in
    if w1.server.occupied == 4 then signal barrier_response w1 else going w1

-- The orders of the main thread.
unfoldable pub from_server : Boost → FromServer → World → Flow
unfolding drain enter_barrier
from_server boost silent w = going w
from_server boost pipe_closed w =
    ended (close_thread (codes "Server disconnected (pipe closed).") true false w)
from_server boost pipe_failed w =
    ended (close_thread (codes "Failed to read from server pipe.") true false w)
from_server boost pipe_error w =
    ended (close_thread (codes "Poll error on server pipe.") true false w)
from_server boost (order card_play) w =
    send true (trick_message w.server.trick_number w.server.cards_on_table)
      (record w { client = record (w.client) { current_trick = w.server.trick_number } })
    >>= λ w'. going (record w' { client = record (w'.client) { b_was_destined_to_play = true } })
from_server boost (order deal_signal) w =
    send true
      (deal_message w.server.trick_type_global w.server.last_taker
        (get_or w.server.cards (seat_index w.client.seat) []))
      w
from_server boost (order disconnected) w = ended (close_thread [] true true w)
from_server boost (order taken) w =
    send true (taken_message w.client.current_trick w.server.cards_on_table w.server.last_taker) w
from_server boost (order scores) w =
    send true (score_message w.server.round_scores) w
    >>= send true (total_message w.server.total_scores)
from_server boost (order barrier_response) w = enter_barrier w
from_server boost (order barrier_end) w =
    drain boost w.client.current_trick (queue_of w) (with_barrier false w)
from_server boost (order end_signal) w =
    ended (close_thread (codes "Server send invalid message.") true false w)

unfoldable pub end_round : Boost → Polled → World → Flow
unfolding from_client from_server request_card
end_round boost timed_out w =
    if w.client.b_was_destined_to_play
    then if w.client.b_is_barrier then going w else request_card w.client.current_trick w
    else ended (close_thread (codes "Failed to poll.") true false w)
end_round boost poll_failed w = ended (close_thread (codes "Failed to poll.") true false w)
end_round boost (ready c s passed) w = from_client boost c passed w >>= from_server boost s

-- One round of `for(;;)`.
unfoldable pub client_poll_round : Boost → Polled → World → Flow
client_poll_round boost polled w = start_round boost w >>= end_round boost polled

-- The loop, for the outcomes of its polls.
unfoldable pub client_poll : Boost → List Polled → World → Flow
unfolding client_poll_round
client_poll boost [] w = going w
client_poll boost (polled ∷ rest) w = client_poll_round boost polled w >>= client_poll boost rest

-- `Serwer::handle_client`: a thread that got no seat ends, one that got it polls until it ends.
unfoldable pub handle_client : Boost → Hello → List Polled → World → Flow
unfolding client_poll
handle_client boost hello polls w = elim (reserve_spot boost hello w) [
  | refused w' ↦ ended w'
  | busy w' ↦ ended w'
  | seated b_is_barrier w' ↦
      client_poll boost polls
        (record w' { client = record (w'.client) { timeout_copy = w'.server.timeout } })
]
