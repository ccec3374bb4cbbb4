-- ===== src/Server/Closing.antt =====
-- serwer.cpp, `Serwer::start_game` and `Serwer::close_server`: what the server's main thread opens,
-- and how it closes the threads and their pipes. The answers of the kernel to `pipe`, to the writes
-- and to `join` are lists; a failed `close` only prints, and is not modelled. The first barrier is that of
-- Server.Running.
pub mod Phases
pub mod Steps
pub mod Shutdown
pub mod Descriptors
pub mod Startup
use kierki_sik.Prelude.{
  ℕ, zero, suc, ◌+◌, List, [], ◌∷◌, ◌++◌, Bool, true, false, Option, none, some, Bytes, codes,
  if◌then◌else◌,
}
use kierki_sik.Server.{Signal, disconnected, end_signal, answer, later}
use kierki_sik.Server.Running.{Desk, Course, going, returned, thrown, waiting, barrier}

-- `server_read_pipes[i]` and `server_write_pipes[i]`, and their two ends.
pub data Pipe : Type 0 where
  read_pipe write_pipe : ℕ → Pipe

pub data Side : Type 0 where
  reading writing : Side

abbrev pub Descriptor : Type 0
Descriptor = Pipe × Side

abbrev pub both_ends : Pipe → List Descriptor
both_ends p = (p, reading) ∷ (p, writing) ∷ []

abbrev pub pipes_at : ℕ → List Descriptor
pipes_at i = both_ends (read_pipe i) ++ both_ends (write_pipe i)

-- What the main thread does: it tries to write to `server_write_pipes[i][1]`, and to join the
-- connection thread or a client's thread, by its number in `client_threads`. The flag of a try says
-- whether the write is complete, or the join does not throw.
pub data Act : Type 0 where
  opens closes : Descriptor → Act
  tells : ℕ → Signal → Bool → Act
  starts_connections : Act
  joins_connections : Bool → Act
  joins : ℕ → Bool → Act
  reports : Bytes → Act

pub record Main : Type 0 where
  pub log : List Act
  -- `true` is a complete write.
  pub writes : List Bool
  -- What the exception of a `join` says, if there is one.
  pub joined : List (Option Bytes)
  pub b_did_something_fail : Bool

abbrev pub act : Act → Main → Main
act a m = record m { log = m.log ++ a ∷ [] }

abbrev pub fail : Bytes → Main → Main
fail error_message m = record m {
  log = m.log ++ reports error_message ∷ [];
  b_did_something_fail = true;
}

abbrev pub write : ℕ → Signal → Main → Main
write i signal m = record m {
  log = m.log ++ tells i signal (answer m.writes) ∷ [];
  writes = later m.writes;
}

-- A `join` with its `catch`.
unfoldable pub join : (Bool → Act) → List (Option Bytes) → Main → Main
join a [] m = act (a true) m
join a (none ∷ rest) m = act (a true) (record m { joined = rest })
join a (some what ∷ rest) m = fail what (act (a false) (record m { joined = rest }))

-- The exception for a failed write is constructed, but not thrown.
unfoldable pub stop_connections : Main → Main
unfolding join
stop_connections m = let told = write 4 end_signal m in join joins_connections told.joined told

unfoldable pub tell_client : ℕ → Main → Main
tell_client i m =
    let told = write i disconnected m in
    if answer m.writes then told else fail (codes "Failed to notify thread on server close.") told

unfoldable pub join_clients : List ℕ → Main → Main
unfolding join
join_clients [] m = m
join_clients (id ∷ ids) m = join_clients ids (join (joins id) m.joined m)

-- `close_fds`.
unfoldable pub close_fds : List Descriptor → Main → Main
close_fds [] m = m
close_fds (fd ∷ fds) m = close_fds fds (act (closes fd) m)

unfoldable pub report_end : Bytes → Main → Main
report_end [] m = m
report_end (c ∷ message) m = fail (c ∷ message) m

-- `client_threads` is the list of the numbers of its threads.
unfoldable pub close_server : Bytes → List ℕ → Main → Main
unfolding stop_connections tell_client join_clients close_fds report_end
close_server error_message client_threads m =
    let stopped = stop_connections (record m { b_did_something_fail = false }) in
    let told = tell_client 3 (tell_client 2 (tell_client 1 (tell_client 0 stopped))) in
    let joined = join_clients client_threads told in
    let closed = close_fds (pipes_at 4) (
      close_fds (pipes_at 3)
        (close_fds (pipes_at 2) (close_fds (pipes_at 1) (close_fds (pipes_at 0) joined)))) in
    report_end error_message closed

-- A successful `pipe`.
abbrev pub open_pipe : Pipe → Main → Main
open_pipe p m = act (opens (p, writing)) (act (opens (p, reading)) m)

-- `for (j = 0; j < i; ++j)`: the pipes of the first `i` indices, from `j` on.
unfoldable pub close_first : ℕ → ℕ → Main → Main
unfolding close_fds
close_first zero j m = m
close_first (suc n) j m = close_first n (j + 1) (close_fds (pipes_at j) m)

-- The loop over the indices: `n` are left, `i` is the next, and the answers say which calls of `pipe`
-- succeed. `false` is the return of 1.
unfoldable pub create_pipes : ℕ → ℕ → List Bool → Main → Bool × Main
unfolding close_first
create_pipes zero i made m = (true, m)
create_pipes (suc n) i made m =
    let rest =
      create_pipes n (i + 1) (later (later made))
        (open_pipe (write_pipe i) (open_pipe (read_pipe i) m)) in
    if answer made
    then if answer (later made) then rest else (
      false,
      close_first i 0 (
          close_fds (both_ends (read_pipe i))
            (act (reports (codes "Failed to create pipes.")) (open_pipe (read_pipe i) m))),
    )
    else (false, close_first i 0 (act (reports (codes "Failed to create pipes.")) m))

-- Calls of `close_server` with these messages.
unfoldable pub close_each : List Bytes → List ℕ → Main → Main
unfolding close_server
close_each [] client_threads m = m
close_each (error_message ∷ messages) client_threads m =
    close_each messages client_threads (close_server error_message client_threads m)

-- The first barrier. Its calls of `close_server` find these threads in `client_threads`.
unfoldable pub meet_clients : List ℕ → Course → Main → Option (Bool × Main)
unfolding close_each
meet_clients client_threads (going e) m = some (true, m)
meet_clients client_threads (returned e) m = some (false, close_each e.closings client_threads m)
meet_clients client_threads _ m = none

-- The connection thread starts, or its constructor throws `some what`; `d` says what the first barrier
-- is answered. True is a return of 0, and `none` a barrier that waits for ever.
unfoldable pub start_game : List Bool → Option Bytes → List ℕ → Desk → Main → Option (Bool × Main)
unfolding create_pipes close_server meet_clients barrier
start_game made connections client_threads d m =
    let (created, m') = create_pipes 5 0 made m in
    if created
    then elim connections [
      | some what ↦ some (false, close_server what [] m')
      | none ↦
          meet_clients client_threads (barrier (record d { closings = [] }))
            (act starts_connections m')
    ]
    else some (false, m')
