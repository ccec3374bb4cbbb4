-- ===== src/Klient/Worker.antt =====
-- klient.cpp, `Klient::handle_client`: the loop of the client's worker thread, and how it closes.
-- What `poll`, the reads and the writes answer are arguments.
pub mod Parting
pub mod Reasons
use kierki_sik.Prelude.{List, [], ◌∷◌, ◌++◌, Bool, true, false, Bytes, codes, if◌then◌else◌}
use kierki_sik.Regex.{Boost}
use kierki_sik.Klient.{
  Klient, Ending, Event, normal_end, disconnected, server_disconnect, shown, sent, finished,
  receive, send_card, socket_closed,
}

-- What the worker does. `tells_main` writes to `client_read_pipe[1]`.
pub data Deed : Type 0 where
  shows sends reports : Bytes → Deed
  tells_main : Ending → Deed
  closes_socket : Deed

-- `b_heard` says whether the write to the main thread is complete; there is one at most.
pub record Worker : Type 0 where
  pub klient : Klient
  pub log : List Deed
  pub b_heard : Bool

-- The thread goes on, or it has returned.
pub data Turn : Type 0 where
  working returned : Worker → Turn

abbrev pub and_then : Turn → (Worker → Turn) → Turn
and_then (working w) f = f w
and_then (returned w) f = returned w

abbrev pub note : Bytes → List Deed
note [] = []
note (c ∷ message) = reports (c ∷ message) ∷ []

-- `close_worker`.
abbrev pub parting : Bool → Bytes → Ending → List Deed
parting b_heard error_message ending =
    (if b_heard then tells_main ending else reports (codes "Failed to notify client."))
    ∷ (note error_message ++ closes_socket ∷ [])

unfoldable pub close_worker : Bytes → Ending → Worker → Turn
close_worker error_message ending w =
    returned (record w { log = w.log ++ parting w.b_heard error_message ending })

-- What the worker says when it ends with `finished`: nothing on BUSY, and else that a write failed.
abbrev pub excuse : Ending → Bytes
excuse normal_end = []
excuse _ = codes "Failed to send message to server."

-- What `receive` and `send_card` lead to.
unfoldable pub perform : List Event → Worker → Turn
unfolding close_worker
perform [] w = working w
perform (shown text ∷ events) w = perform events (record w { log = w.log ++ shows text ∷ [] })
perform (sent message ∷ events) w = perform events (record w { log = w.log ++ sends message ∷ [] })
perform (finished ending ∷ events) w = close_worker (excuse ending) ending w

-- The pipe from the main thread after a poll, with the byte that is read. A card goes to the server,
-- and the flag says whether all of it is written.
pub data FromMain : Type 0 where
  quiet pipe_closed pipe_failed pipe_error : FromMain
  order_disconnected order_other : FromMain
  order_card_play : Bool → FromMain

-- The server's socket. The flag says whether an answer to the message is written.
pub data FromServer : Type 0 where
  silent left failed socket_error : FromServer
  message : Bool → Bytes → FromServer

pub data Polled : Type 0 where
  poll_failed : Polled
  ready : FromMain → FromServer → Polled

unfoldable pub from_main : FromMain → Worker → Turn
unfolding close_worker perform
from_main quiet w = working w
from_main pipe_closed w = close_worker (codes "Client disconnected.") disconnected w
from_main pipe_failed w = close_worker (codes "Failed to read from pipe.") disconnected w
from_main pipe_error w = close_worker (codes "POLLERR") disconnected w
from_main order_disconnected w = returned (record w { log = w.log ++ closes_socket ∷ [] })
from_main order_other w = close_worker (codes "Wrong message from client.") disconnected w
from_main (order_card_play written) w =
    let (k, events) = send_card written w.klient in perform events (record w { klient = k })

-- The end of the connection, as `assert_client_read_socket` takes it.
unfoldable pub server_left : Worker → Turn
unfolding close_worker
server_left w = elim (socket_closed w.klient) [
  | normal_end ↦ close_worker [] normal_end w
  | _ ↦ close_worker (codes "Server disconnected.") server_disconnect w
]

unfoldable pub from_server : Boost → FromServer → Worker → Turn
unfolding server_left
from_server boost silent w = working w
from_server boost left w = server_left w
from_server boost failed w = close_worker (codes "Failed to read from socket.") disconnected w
from_server boost socket_error w = close_worker (codes "SERVER POLLERR") disconnected w
from_server boost (message written m) w =
    let (k, events) = receive boost written m w.klient in perform events (record w { klient = k })

unfoldable pub worker_round : Boost → Polled → Worker → Turn
unfolding from_main from_server
worker_round boost poll_failed w =
    close_worker (codes "Failed to poll in client worker.") disconnected w
worker_round boost (ready m s) w = and_then (from_main m w) (from_server boost s)

-- `while (true)`, for the outcomes of its polls.
unfoldable pub handle_client : Boost → List Polled → Worker → Turn
unfolding worker_round
handle_client boost [] w = working w
handle_client boost (polled ∷ rest) w =
    and_then (worker_round boost polled w) (handle_client boost rest)
