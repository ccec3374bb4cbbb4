-- ===== src/Lib.antt =====
-- Kierki over TCP/IP: a server that deals a trick-taking card game to four clients (kierki-serwer),
-- and a client for a human or an automatic player (kierki-klient). The two exchange lines of text.
--
-- The parts and their files (paths from the repository's root):
--   * Server: serwer.cpp, serwer.h. `Serwer` is the state that the threads share under
--     `memory_mutex`, `Client` the variables of one client's thread, `World` both with what the
--     thread has done to the outside and what the kernel will answer to its writes. A function of the
--     thread returns a `Flow`: it goes on, it has ended, or an exception left it.
--       Server.Play: parse_message. Server.Reserve: reserve_spot. Server.Poll: client_poll and
--       handle_client, one function per branch, for any outcomes of poll and read.
--       Server.Kept: what all of these leave alone.
--       Server.Deal: the sections of run_deal and run_game that change the shared state;
--       Server.Deal.Game: the deals of a game file. Server.Running: run_deal, barrier and run_game as the
--       main thread runs them, with their writes and polls and every return.
--       Server.Barrier: the steps of the five threads around a barrier (Server.Barrier.Runs for
--       barriers that nobody leaves, Server.Barrier.Leaving for one that somebody leaves).
--       Server.Closing: start_game and close_server. Server.Connections: handle_connections.
--   * Points: points_calculator.cpp, with the rules of the game beside it (Points.Cost, Points.Deal).
--   * Klient: klient.cpp, the worker thread's handling of messages and cards and the strategy;
--     Klient.Worker: its loop, handle_client, and how it ends; Klient.Running: the main thread,
--     prepare_client and run_client, with the player's commands in Klient.Commands;
--     Klient.Printer: klient_printer.cpp.
--   * Interplay: a request of the server, the automatic player's reply, and the server's verdict
--     (Interplay.Dealing: the hands).
--   * Regex: regex.cpp. Boost.Regex is the record `Boost`: a matcher that decides the language of an
--     expression, and an iterator of matches with three documented facts. Regex.Backtracking is a
--     concrete engine that satisfies them.
--   * Messages: senders.cpp, in Messages.Language and Messages.Checks the texts that each check
--     accepts, and in Messages.Bounds the length of the messages.
--   * Sockets: read_from_socket and write_to_socket of common.cpp; Sockets.Stream: several messages on
--     one connection; Sockets.Setup: setup_server_socket; Sockets.Resolver: the server's address.
--   * FileReader: file_reader.cpp. CmdArgs: cmd_args_parsers.cpp, with Boost.Program_options as a
--     parameter.
--   * Prelude, Decimal, StdMap, Seats, Cards: shared lists, numbers, texts, `to_string` and `stoi`,
--     `std::map`, seats and cards. Tests: concrete data.
--
-- Texts are lists of character codes. Numbers of tricks, points and seats stay far below the bounds
-- of their types, so they are natural numbers, and scores are integers; that the totals fit 32 bits
-- is a result. The loops over a list of answers are structural: `none` says that the list ended while
-- the loop still waits, and results say how many answers are enough. `to_string` has a unit of fuel
-- for each unit of the number, and the loop over the deals of a file one more than there are deals.
--
-- Not modelled: the interleaving of threads outside barriers (within a step of a client's thread no
-- other thread moves; a round of barrier's loop is one step, and in Server.Running the
-- clients' threads change the shared state only by the card on the table and the count of a barrier),
-- the list joinable_threads and the joins in run_deal, failed calls of close, which only print, the
-- time limits that setsockopt sets, logging, and what client_poll does with a timeout that has
-- wrapped to a negative number (one of more than 24 days).
pub mod Prelude
pub mod Decimal
pub mod StdMap
pub mod Seats
pub mod Cards
pub mod Points
pub mod Regex
pub mod Messages
pub mod Server
pub mod Klient
pub mod Interplay
pub mod FileReader
pub mod CmdArgs
pub mod Sockets
pub mod Tests
