-- ===== src/Tests/Ends.antt =====
-- How the threads of the server and of the client begin and end, on concrete data.
use kierki_sik.Prelude.{◌≡◌, refl, List, [], ◌∷◌, ◌++◌, Bool, true, false, none, some, codes, arith}
use kierki_sik.Prelude.Int.{pos}
use kierki_sik.Regex.Backtracking.{backtracking}
use kierki_sik.Sockets.Setup.{SetupAnswers}
use kierki_sik.Server.{World, end_signal, disconnected, new_serwer, no_scores}
use kierki_sik.Server.Running.{Desk, nothing}
use kierki_sik.Server.Poll
use kierki_sik.Server.Poll.{order}
use kierki_sik.Server.Reserve
use kierki_sik.Server.Kept.{Kept, last_world}
use kierki_sik.Server.Kept.Thread.{handle_client-Kept}
use kierki_sik.Server.Closing
use kierki_sik.Server.Closing.{close_server, start_game}
use kierki_sik.Server.Closing.Phases.{deeds}
use kierki_sik.Server.Closing.Shutdown.{shutdown, close_server-shutdown}
use kierki_sik.Server.Closing.Startup.{Started, start_game-Started}
use kierki_sik.Server.Connections.{
  Listener, Watched, ready, nobody, connection, listening, handle_connections,
}
use kierki_sik.Server.Connections.Accepted.{Serves, handle_connections-accepted}
use kierki_sik.Server.Connections.Closed.{Ends, handle_connections-Ends}
use kierki_sik.Klient.{normal_end}
use kierki_sik.Klient.Worker
use kierki_sik.Klient.Worker.Parting.{handle_client-Works}
use kierki_sik.Klient.Worker.Reasons.{Works}
use kierki_sik.Klient.Running
use kierki_sik.Klient.Running.Prepared.{left_open, prepare_client-left_open}
use kierki_sik.Tests.{table_3, east_turn, east_player, east_client}

-- E plays the ace of spades in its turn, and is then told to end.
abbrev playing : List Poll.Polled
playing =
    Poll.ready (Poll.message (codes "TRICK3AS\r\n")) Poll.silent 10
    ∷ Poll.ready Poll.quiet (order disconnected) 10
    ∷ []

-- A newcomer on W in trick 3.
abbrev newcomer : World
newcomer = record (east_turn false) {
  client = record (east_client false false) { seat = []; client_fd = 9 };
  answers = true ∷ true ∷ true ∷ true ∷ [];
}

handle_client-Kept_example :
    Kept table_3
      (last_world (
        Poll.handle_client backtracking
          (Reserve.message (codes "IAMW\r\n"))
          playing
          newcomer)).server
handle_client-Kept_example =
    handle_client-Kept backtracking (Reserve.message (codes "IAMW\r\n")) playing newcomer

-- The second client's thread does not hear, and the first join throws.
abbrev main_thread : Closing.Main
main_thread = record {
  log = [];
  writes = true ∷ true ∷ false ∷ true ∷ true ∷ [];
  joined = some (codes "Invalid argument") ∷ none ∷ [];
  b_did_something_fail = false;
}

close_server-shutdown_example :
    (deeds (close_server [] (0 ∷ 1 ∷ []) main_thread).log
      ≡ shutdown (0 ∷ 1 ∷ []) main_thread.writes main_thread.joined)
    × ((close_server [] (0 ∷ 1 ∷ []) main_thread).b_did_something_fail ≡ true)
unfolding deeds
close_server-shutdown_example = close_server-shutdown [] (0 ∷ 1 ∷ []) main_thread

-- Every pipe and the connection thread are there, and the first barrier fails at its second poll.
abbrev lonely : Desk
lonely = record {
  server = new_serwer 5 0;
  b_received_card = false;
  scores = no_scores;
  closings = [];
  told = [];
  writes = true ∷ true ∷ true ∷ true ∷ [];
  barriers = (some (nothing ∷ nothing ∷ nothing ∷ nothing ∷ nothing ∷ [], 1) ∷ none ∷ []) ∷ [];
}

abbrev all_made : List Bool
all_made = true ∷ true ∷ true ∷ true ∷ true ∷ true ∷ true ∷ true ∷ true ∷ true ∷ []

start_game-Started_example : Started lonely (start_game all_made none (0 ∷ []) lonely main_thread)
start_game-Started_example = start_game-Started all_made none (0 ∷ []) lonely main_thread refl

abbrev listener : Listener
listener = record {
  world = record newcomer { client = record (newcomer.client) { seat = codes "K" } };
  thread_id = 0;
  client_threads = [];
}

-- One `accept` fails before the server ends.
abbrev broken_accept : List Watched
broken_accept =
    ready (connection (some 7) none) Poll.silent
    ∷ ready (connection none none) Poll.silent
    ∷ ready nobody (order end_signal)
    ∷ []

handle_connections-accepted_example :
    Serves broken_accept [] (handle_connections (pos 3) broken_accept listener)
handle_connections-accepted_example =
    handle_connections-accepted 3 broken_accept listener (omega arith) refl refl

handle_connections-Ends_example :
    Ends 3 1 (listening 3 listener).world (handle_connections (pos 3) broken_accept listener)
handle_connections-Ends_example =
    handle_connections-Ends 3 broken_accept listener ((λ e. ground arith), (tt, (tt, tt)))

-- `bind` fails.
abbrev port_taken : SetupAnswers
port_taken = record {
  created = some 3;
  reuse_set = true;
  v6only_set = true;
  bound = false;
  listening = true;
}

-- The server leaves in the middle of a deal.
abbrev worker : Worker.Worker
worker = record { klient = east_player; log = []; b_heard = true }

abbrev server_gone : List Worker.Polled
server_gone =
    Worker.ready Worker.quiet (Worker.message true (codes "WRONG3\r\n"))
    ∷ Worker.ready Worker.quiet Worker.left
    ∷ []

handle_client-Works_example :
    Works backtracking server_gone worker (Worker.handle_client backtracking server_gone worker)
handle_client-Works_example = handle_client-Works backtracking server_gone worker

-- IAM cannot be written.
abbrev not_greeted : Running.Answers
not_greeted = record {
  made_read = true;
  made_write = true;
  resolved = some 0;
  created = true;
  connected = true;
  greeted = false;
  thrown = none;
}

prepare_client-left_open_example :
    left_open [] (Running.prepare_client not_greeted).1 ≡ Running.read_ends ++ Running.write_ends
unfolding Running.prepare_client
prepare_client-left_open_example = prepare_client-left_open not_greeted

abbrev player : Running.Main
player = record { klient = record east_player { is_ai = false }; log = []; thrown = none }

-- A command, and then the worker reports the normal end.
abbrev to_the_end : List Running.Polled
to_the_end =
    Running.ready (Running.line (codes "cards") Running.one) Running.quiet
    ∷ Running.ready Running.idle (Running.byte (some normal_end))
    ∷ []
