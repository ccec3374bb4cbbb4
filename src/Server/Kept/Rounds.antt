-- ===== src/Server/Kept/Rounds.antt =====
-- The rounds of `client_poll`.
use kierki_sik.Prelude.{ℕ, refl, List, [], ◌∷◌, ◌++◌, ◌-◌, true, false, Bytes, codes, ◌==◌, ◌+◌}
use mathlib.Core.List.Perm
use kierki_sik.Regex.{Boost}
use kierki_sik.Messages.{trick_message, score_message, total_message}
use kierki_sik.Server.{
  World, send, disconnected, card_play, barrier_response, scores, taken, deal_signal, end_signal,
  barrier_end,
}
use kierki_sik.Server.Poll.{
  FromClient, quiet, left, failed, socket_error, message, FromServer, silent, pipe_closed,
  pipe_failed, pipe_error, order, Polled, timed_out, poll_failed, ready, drain, with_queue,
  queue_of, with_barrier, start_round, request_card, from_client, enter_barrier, from_server,
  end_round, client_poll_round, client_poll,
}
use kierki_sik.Server.Play.{parse_message}
use kierki_sik.Server.Kept.{going-Keeps, from-Keeps, Keeps, bind-Keeps, if-Keeps}
use kierki_sik.Server.Kept.Steps.{close-Keeps, send-Keeps, signal-Keeps, parse_message-Keeps}

drain-Keeps :
    (boost : Boost) (current : ℕ) (queue : List Bytes) (w : World)
    → Keeps w.server (drain boost current queue w)
unfolding drain
drain-Keeps boost current [] w = going-Keeps w
drain-Keeps boost current (m ∷ queue) w =
    bind-Keeps w.server (parse_message boost m current (with_queue queue w))
      (drain boost current queue)
      (from-Keeps w.server (with_queue queue w).server _ (Perm.rfl, refl)
        (parse_message-Keeps boost m current (with_queue queue w)))
      (drain-Keeps boost current queue)

start_round-Keeps : (boost : Boost) (w : World) → Keeps w.server (start_round boost w)
unfolding start_round
start_round-Keeps boost w = if-Keeps w.server _ _ _ (going-Keeps _) (drain-Keeps boost _ _ _)

request_card-Keeps : (n : ℕ) (w : World) → Keeps w.server (request_card n w)
unfolding request_card
request_card-Keeps n w =
    send-Keeps true (trick_message n w.server.cards_on_table)
      (record w { client = record (w.client) { timeout_copy = w.server.timeout } })

from_client-Keeps :
    (boost : Boost) (c : FromClient) (passed : ℕ) (w : World)
    → Keeps w.server (from_client boost c passed w)
unfolding from_client
from_client-Keeps boost (message m) passed w =
    if-Keeps w.server w.client.b_is_barrier _ _
      (from-Keeps w.server (with_queue (queue_of w ++ m ∷ []) w).server _ (Perm.rfl, refl)
        (going-Keeps (with_queue (queue_of w ++ m ∷ []) w)))
      (parse_message-Keeps boost m w.client.current_trick w)
from_client-Keeps boost left passed w = close-Keeps (codes "Client disconnected.") true false w
from_client-Keeps boost failed passed w =
    close-Keeps (codes "Failed to read from client.") true false w
from_client-Keeps boost socket_error passed w =
    close-Keeps (codes "Poll error on client socket.") true false w
from_client-Keeps boost quiet passed w =
    if-Keeps w.server w.client.b_was_destined_to_play _ _
      (if-Keeps w.server (w.client.timeout_copy - passed == 0) _ _
        (request_card-Keeps w.client.current_trick w) (going-Keeps _))
      (going-Keeps _)

enter_barrier-Keeps : (w : World) → Keeps w.server (enter_barrier w)
unfolding enter_barrier
enter_barrier-Keeps w =
    if-Keeps w.server (w.server.occupied + 1 == 4) _ _
      (from-Keeps w.server _ _ (Perm.rfl, refl) (signal-Keeps barrier_response _))
      (from-Keeps w.server _ _ (Perm.rfl, refl) (going-Keeps _))

from_server-Keeps :
    (boost : Boost) (s : FromServer) (w : World) → Keeps w.server (from_server boost s w)
unfolding from_server
from_server-Keeps boost silent w = going-Keeps w
from_server-Keeps boost pipe_closed w =
    close-Keeps (codes "Server disconnected (pipe closed).") true false w
from_server-Keeps boost pipe_failed w =
    close-Keeps (codes "Failed to read from server pipe.") true false w
from_server-Keeps boost pipe_error w = close-Keeps (codes "Poll error on server pipe.") true false w
from_server-Keeps boost (order card_play) w =
    bind-Keeps w.server
      (send true (trick_message w.server.trick_number w.server.cards_on_table)
        (record w { client = record (w.client) { current_trick = w.server.trick_number } }))
      _ (send-Keeps true _ _) (λ w'. going-Keeps _)
from_server-Keeps boost (order deal_signal) w = send-Keeps true _ w
from_server-Keeps boost (order disconnected) w = close-Keeps [] true true w
from_server-Keeps boost (order taken) w = send-Keeps true _ w
from_server-Keeps boost (order scores) w =
    bind-Keeps w.server (send true (score_message w.server.round_scores) w)
      (send true (total_message w.server.total_scores))
      (send-Keeps true (score_message w.server.round_scores) w)
      (λ w'. send-Keeps true (total_message w.server.total_scores) w')
from_server-Keeps boost (order barrier_response) w = enter_barrier-Keeps w
from_server-Keeps boost (order barrier_end) w = drain-Keeps boost _ _ (with_barrier false w)
from_server-Keeps boost (order end_signal) w =
    close-Keeps (codes "Server send invalid message.") true false w

end_round-Keeps : (boost : Boost) (p : Polled) (w : World) → Keeps w.server (end_round boost p w)
unfolding end_round
end_round-Keeps boost timed_out w =
    if-Keeps w.server w.client.b_was_destined_to_play _ _
      (if-Keeps w.server w.client.b_is_barrier _ _ (going-Keeps _)
        (request_card-Keeps w.client.current_trick w))
      (close-Keeps (codes "Failed to poll.") true false w)
end_round-Keeps boost poll_failed w = close-Keeps (codes "Failed to poll.") true false w
end_round-Keeps boost (ready c s passed) w =
    bind-Keeps w.server (from_client boost c passed w) (from_server boost s)
      (from_client-Keeps boost c passed w) (from_server-Keeps boost s)

pub client_poll-Keeps :
    (boost : Boost) (polls : List Polled) (w : World) → Keeps w.server (client_poll boost polls w)
unfolding client_poll client_poll_round
client_poll-Keeps boost [] w = going-Keeps w
client_poll-Keeps boost (polled ∷ rest) w =
    bind-Keeps w.server (client_poll_round boost polled w) (client_poll boost rest)
      (bind-Keeps w.server (start_round boost w) (end_round boost polled)
        (start_round-Keeps boost w) (end_round-Keeps boost polled))
      (client_poll-Keeps boost rest)
