-- ===== src/Server/Connections.antt =====
-- serwer.cpp, `Serwer::handle_connections`: the thread that accepts the clients' connections. What
-- `setup_server_socket`, `poll`, `accept`, the reads and the creation of threads answer are
-- arguments. Its `World` has the seat K, and the listening socket as its descriptor.
pub mod Accepted
pub mod Closed
pub mod Listening
use kierki_sik.Prelude.{
  ℕ, ◌+◌, ◌%◌, ◌^◌, List, [], ◌∷◌, ◌++◌, Bool, true, false, Option, none, some, Bytes, codes,
  if◌then◌else◌, ◌==◌,
}
use kierki_sik.Prelude.Int.{ℤ, pos, negsuc}
use kierki_sik.Server.{
  World, Signal, Event, disconnected, end_signal, closed, reported, close_thread, emit, notify,
  answer, later, report_error,
}
use kierki_sik.Server.Poll.{FromServer, silent, pipe_closed, pipe_failed, pipe_error, order}

-- The listening socket after a poll: no event, an error event, or a connection: the descriptor that
-- `accept` gives, if it succeeds, and what the exception of the new thread's constructor says, if it
-- throws one.
pub data Incoming : Type 0 where
  nobody socket_error : Incoming
  connection : Option ℕ → Option Bytes → Incoming

pub data Watched : Type 0 where
  poll_failed : Watched
  ready : Incoming → FromServer → Watched

-- `client_threads` maps the number of a thread to the thread, for which its client's descriptor
-- stands here.
pub record Listener : Type 0 where
  pub world : World
  pub thread_id : ℕ
  pub client_threads : List (ℕ × ℕ)

-- The thread goes on, or it has returned.
pub data Watch : Type 0 where
  watching returned : Listener → Watch

abbrev pub and_then : Watch → (Listener → Watch) → Watch
and_then (watching l) f = f l
and_then (returned l) f = returned l

-- `client_threads[id] = move(client_thread)`.
unfoldable pub put_thread : ℕ → ℕ → List (ℕ × ℕ) → List (ℕ × ℕ)
put_thread id fd [] = (id, fd) ∷ []
put_thread id fd ((j, other) ∷ threads) =
    let rest = put_thread id fd threads in if j == id then (id, fd) ∷ threads else (j, other) ∷ rest

abbrev pub with_world : World → Listener → Listener
with_world w l = record l { world = w }

-- `close_thread(error_message, {socket_fd}, CONNECTIONS_THREAD, false)`.
abbrev pub give_up : Bytes → Listener → Listener
give_up error_message l = with_world (close_thread error_message false false l.world) l

-- After a failed `accept` the thread goes on.
unfoldable pub heed_socket : Incoming → Listener → Watch
heed_socket nobody l = watching l
heed_socket socket_error l = returned (give_up (codes "Poll error on server socket.") l)
heed_socket (connection none thrown) l = watching (give_up (codes "Failed to accept connection.") l)
heed_socket (connection (some client_fd) (some what)) l =
    let l' = give_up what l in returned (with_world (emit (closed client_fd) l'.world) l')
heed_socket (connection (some client_fd) none) l = watching (record l {
  client_threads = put_thread l.thread_id client_fd l.client_threads;
  thread_id = (l.thread_id + 1) % 2 ^ 64;
})

abbrev pub close_socket : Listener → Listener
close_socket l = with_world (emit (closed l.world.client.client_fd) l.world) l

unfoldable pub heed_server : FromServer → Listener → Watch
heed_server silent l = watching l
heed_server pipe_closed l = returned (give_up (codes "Server disconnected (pipe closed).") l)
heed_server pipe_failed l = returned (give_up (codes "Failed to read from server pipe.") l)
heed_server pipe_error l = returned (give_up (codes "Poll error on server pipe.") l)
heed_server (order disconnected) l = returned (close_socket l)
heed_server (order end_signal) l = returned (close_socket l)
heed_server (order _) l =
    returned
      (close_socket (with_world (emit (reported (codes "Server send invalid message.")) l.world) l))

unfoldable pub watch_round : Watched → Listener → Watch
unfolding heed_socket heed_server
watch_round poll_failed l = returned (give_up (codes "Failed to poll.") l)
watch_round (ready incoming s) l = and_then (heed_socket incoming l) (heed_server s)

-- `for (;;)`, for the outcomes of its polls.
unfoldable pub watch : List Watched → Listener → Watch
unfolding watch_round
watch [] l = watching l
watch (polled ∷ rest) l = and_then (watch_round polled l) (watch rest)

-- The thread with the listening socket `fd`.
abbrev pub listening : ℕ → Listener → Listener
listening fd l =
    with_world (record (l.world) { client = record (l.world.client) { client_fd = fd } }) l

-- DISCONNECTED to the main thread, when there is no socket.
abbrev pub report_absence : World → World
report_absence w =
    if answer w.answers
    then notify disconnected w
    else emit (reported (codes "Failed to notify server.")) (record w { answers = later w.answers })

-- The result of `setup_server_socket`; only a negative one is taken for a failure.
unfoldable pub handle_connections : ℤ → List Watched → Listener → Watch
unfolding watch
handle_connections (negsuc n) polls l = returned (with_world (report_absence l.world) l)
handle_connections (pos socket_fd) polls l = watch polls (listening socket_fd l)
