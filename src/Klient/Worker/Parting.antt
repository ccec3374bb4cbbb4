-- ===== src/Klient/Worker/Parting.antt =====
-- How the client's worker ends.
use kierki_sik.Prelude.{
  ◌≡◌, refl, if◌then◌else◌, List, [], ◌∷◌, ◌++◌, append-nil, Bool, Bytes, codes, All, true, false,
  ◌&&◌, ap, sym,
}
use kierki_sik.Regex.{Boost}
use kierki_sik.Klient.{
  Klient, Ending, Event, normal_end, disconnected, server_disconnect, shown, sent, finished,
  receive, send_card, socket_closed,
}
use kierki_sik.Klient.Worker.{
  Deed, shows, sends, closes_socket, Worker, parting, close_worker, excuse, perform, FromMain,
  quiet, pipe_closed, pipe_failed, pipe_error, order_disconnected, order_other, order_card_play,
  FromServer, silent, left, failed, socket_error, message, Polled, poll_failed, ready, from_main,
  server_left, from_server, worker_round, handle_client,
}
use kierki_sik.Klient.Worker.Reasons.{
  IsCalmMain, IsCalmServer, IsCalm, EndsWith, Reason, no_poll, main_closed, main_failed, main_error,
  strange_order, card, read_failed, server_error, normal, early, reply, IsParting, obeying, telling,
  Proceeds, Ended, Works, behind, and_then-Proceeds, map-Proceeds,
}

-- The poll `polled` ends the worker.
abbrev Decides : Boost → Polled → Bool → Klient → List Deed → Type 0
Decides boost polled b_heard k last = IsParting boost b_heard k polled last

close_worker-Proceeds :
    (C : Type 0) (boost : Boost) (polled : Polled) (error_message : Bytes) (ending : Ending)
    (w : Worker)
    → Reason boost w.klient polled ending
    → Proceeds C (Decides boost polled) w (close_worker error_message ending w)
unfolding close_worker
close_worker-Proceeds C boost polled error_message ending w reason = (
  [],
  parting w.b_heard error_message ending,
  ap (λ l. l ++ parting w.b_heard error_message ending) (sym (append-nil w.log)),
  tt,
  telling polled ending error_message reason,
)

-- Events that end the worker do so for their ending.
perform-Proceeds :
    (boost : Boost) (polled : Polled) (events : List Event) (w : Worker)
    → ((ending : Ending) → EndsWith ending events → Reason boost w.klient polled ending)
    → Proceeds (Unit {0}) (Decides boost polled) w (perform events w)
unfolding perform
perform-Proceeds boost polled [] w why = ([], sym (append-nil w.log), tt, refl, tt)
perform-Proceeds boost polled (shown text ∷ events) w why =
    let w' = record w { log = w.log ++ shows text ∷ [] } in
    behind (Unit {0}) (Decides boost polled) w w' (shows text ∷ []) (perform events w') refl
      (tt, tt) refl (perform-Proceeds boost polled events w' why)
perform-Proceeds boost polled (sent m ∷ events) w why =
    let w' = record w { log = w.log ++ sends m ∷ [] } in
    behind (Unit {0}) (Decides boost polled) w w' (sends m ∷ []) (perform events w') refl (tt, tt)
      refl (perform-Proceeds boost polled events w' why)
perform-Proceeds boost polled (finished ending ∷ events) w why =
    close_worker-Proceeds (Unit {0}) boost polled (excuse ending) ending w (why ending refl)

from_main-Proceeds :
    (boost : Boost) (m : FromMain) (s : FromServer) (w : Worker)
    → Proceeds (IsCalmMain m) (Decides boost (ready m s)) w (from_main m w)
unfolding from_main
from_main-Proceeds boost quiet s w = ([], sym (append-nil w.log), tt, refl, tt)
from_main-Proceeds boost pipe_closed s w =
    close_worker-Proceeds (IsCalmMain pipe_closed) boost (ready pipe_closed s)
      (codes "Client disconnected.") disconnected w (main_closed s)
from_main-Proceeds boost pipe_failed s w =
    close_worker-Proceeds (IsCalmMain pipe_failed) boost (ready pipe_failed s)
      (codes "Failed to read from pipe.") disconnected w (main_failed s)
from_main-Proceeds boost pipe_error s w =
    close_worker-Proceeds (IsCalmMain pipe_error) boost (ready pipe_error s) (codes "POLLERR")
      disconnected w (main_error s)
from_main-Proceeds boost order_disconnected s w = (
  [],
  closes_socket ∷ [],
  ap (λ l. l ++ closes_socket ∷ []) (sym (append-nil w.log)),
  tt,
  obeying s,
)
from_main-Proceeds boost order_other s w =
    close_worker-Proceeds (IsCalmMain order_other) boost (ready order_other s)
      (codes "Wrong message from client.") disconnected w (strange_order s)
from_main-Proceeds boost (order_card_play written) s w =
    let w' = record w { klient = (send_card written w.klient).0 } in
    behind (Unit {0}) (Decides boost (ready (order_card_play written) s)) w w' []
      (perform (send_card written w.klient).1 w') (sym (append-nil w.log)) tt refl
      (perform-Proceeds boost (ready (order_card_play written) s) (send_card written w.klient).1 w'
        (λ ending e. card written s w.klient ending refl e))

server_left-Proceeds :
    (boost : Boost) (m : FromMain) (w : Worker)
    → IsCalmMain m
    → Proceeds (IsCalmServer left) (Decides boost (ready m left)) w (server_left w)
unfolding server_left socket_closed
server_left-Proceeds boost m w calm = go (w.klient.got_score) (w.klient.got_total) refl refl
  where
    go :
        (a b : Bool)
        → w.klient.got_score ≡ a
        → w.klient.got_total ≡ b
        → Proceeds
            (IsCalmServer left)
            (Decides boost (ready m left))
            w
            (elim (if a && b then normal_end else server_disconnect) [
              | normal_end ↦ close_worker [] normal_end w
              | _ ↦ close_worker (codes "Server disconnected.") server_disconnect w
            ])
    go true true e d =
        close_worker-Proceeds (IsCalmServer left) boost (ready m left) [] normal_end w
          (normal m calm e d)
    go true false e d =
        close_worker-Proceeds (IsCalmServer left) boost (ready m left)
          (codes "Server disconnected.") server_disconnect w (early m calm (rw (e, d) refl))
    go false b e d =
        close_worker-Proceeds (IsCalmServer left) boost (ready m left)
          (codes "Server disconnected.") server_disconnect w (early m calm (rw e refl))

from_server-Proceeds :
    (boost : Boost) (m : FromMain) (s : FromServer) (w : Worker)
    → IsCalmMain m
    → Proceeds (IsCalmServer s) (Decides boost (ready m s)) w (from_server boost s w)
unfolding from_server
from_server-Proceeds boost m silent w calm = ([], sym (append-nil w.log), tt, refl, tt)
from_server-Proceeds boost m left w calm = server_left-Proceeds boost m w calm
from_server-Proceeds boost m failed w calm =
    close_worker-Proceeds (IsCalmServer failed) boost (ready m failed)
      (codes "Failed to read from socket.") disconnected w (read_failed m calm)
from_server-Proceeds boost m socket_error w calm =
    close_worker-Proceeds (IsCalmServer socket_error) boost (ready m socket_error)
      (codes "SERVER POLLERR") disconnected w (server_error m calm)
from_server-Proceeds boost m (message written text) w calm =
    let w' = record w { klient = (receive boost written text w.klient).0 } in
    behind (Unit {0}) (Decides boost (ready m (message written text))) w w' []
      (perform (receive boost written text w.klient).1 w') (sym (append-nil w.log)) tt refl
      (perform-Proceeds boost (ready m (message written text))
        (receive boost written text w.klient).1 w'
        (λ ending e. reply m written text w.klient ending calm refl e))

worker_round-Proceeds :
    (boost : Boost) (polled : Polled) (w : Worker)
    → Proceeds (IsCalm polled) (Decides boost polled) w (worker_round boost polled w)
unfolding worker_round
worker_round-Proceeds boost poll_failed w =
    close_worker-Proceeds (IsCalm poll_failed) boost poll_failed
      (codes "Failed to poll in client worker.") disconnected w no_poll
worker_round-Proceeds boost (ready m s) w =
    and_then-Proceeds (IsCalmMain m) (IsCalm (ready m s)) (Decides boost (ready m s))
      (Decides boost (ready m s)) w (from_main m w) (from_server boost s)
      (from_main-Proceeds boost m s w) (λ b k last p. p)
      (λ v c.
        map-Proceeds (IsCalmServer s) (IsCalm (ready m s)) (Decides boost (ready m s))
          (Decides boost (ready m s)) v (from_server boost s v) (from_server-Proceeds boost m s v c)
          (λ d. (c, d)) (λ b k last p. p))

later_poll :
    (boost : Boost) (polled : Polled) (rest : List Polled) (b : Bool) (k : Klient)
    (last : List Deed)
    → IsCalm polled
    → Ended boost rest b k last
    → Ended boost (polled ∷ rest) b k last
later_poll boost polled rest b k last h (earlier, decisive, later, e, calm, p) =
    (polled ∷ earlier, decisive, later, ap (λ l. polled ∷ l) e, (h, calm), p)

-- Whatever the player, the server and the kernel do, the client's worker only shows texts and sends
-- messages while it runs, and it runs on only while the polls succeed, the main thread orders nothing
-- but cards, and the connection lasts. It returns for a reason that the last poll gave. If that is the
-- main thread's order to end, it only closes the socket. For every other reason its last acts are to
-- write one byte for the main thread, or to report that it cannot, and to close the socket, once. The
-- byte is DISCONNECTED after a failure, the normal end if the server leaves after the scores and the
-- totals, SERVER_DISCONNECT if it leaves before, and what `send_card` or `receive` ends with.
pub handle_client-Works :
    (boost : Boost) (polls : List Polled) (w : Worker)
    → Works boost polls w (handle_client boost polls w)
unfolding handle_client
handle_client-Works boost [] w = ([], sym (append-nil w.log), tt, refl, tt)
handle_client-Works boost (polled ∷ rest) w =
    and_then-Proceeds (IsCalm polled) (All IsCalm (polled ∷ rest)) (Decides boost polled)
      (Ended boost (polled ∷ rest)) w (worker_round boost polled w) (handle_client boost rest)
      (worker_round-Proceeds boost polled w) (λ b k last p. ([], polled, rest, refl, tt, p))
      (λ v c.
        map-Proceeds (All IsCalm rest) (All IsCalm (polled ∷ rest)) (Ended boost rest)
          (Ended boost (polled ∷ rest)) v (handle_client boost rest v)
          (handle_client-Works boost rest v) (λ calm. (c, calm))
          (λ b k last p. later_poll boost polled rest b k last c p))
