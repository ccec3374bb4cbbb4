-- ===== src/Server/Poll/Barrier.antt =====
-- A barrier as a client's thread sees it: what the client sends meanwhile waits for the end.
use kierki_sik.Prelude.{ℕ, List, [], map, Bytes, get_or, set}
use kierki_sik.Server.{World, seat_index, barrier_end}
use kierki_sik.Server.Poll.{Polled, ready, message, quiet, silent, order}

-- The messages that wait for a client.
abbrev pub waiting : World → List Bytes
waiting w = get_or w.server.barrier_messages (seat_index w.client.seat) []

-- The state with `queue` waiting, in the trick that the server is in.
abbrev pub keeping : List Bytes → World → World
keeping queue w = record w {
  server = record (w.server) {
    barrier_messages = set w.server.barrier_messages (seat_index w.client.seat) queue;
  };
  client = record (w.client) { current_trick = w.server.trick_number };
}

-- The rounds of a barrier: the client sends these messages and the server is silent.
abbrev pub during : ℕ → List Bytes → List Polled
during passed ms = map (λ m. ready (message m) silent passed) ms

abbrev pub at_end : ℕ → Polled
at_end passed = ready quiet (order barrier_end) passed
