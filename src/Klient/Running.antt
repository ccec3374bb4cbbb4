-- ===== src/Klient/Running.antt =====
-- klient.cpp, `Klient::prepare_client` and `Klient::run_client`: the client's main thread. What the
-- kernel and the resolver answer is an argument; a failed `close` only prints, and is not modelled.
pub mod Prepared
pub mod Exits
pub mod Proceeds
use kierki_sik.Prelude.{
  ℕ, List, [], ◌∷◌, ◌++◌, Bool, true, false, not, ◌&&◌, Option, none, some, Bytes, codes, same,
  if◌then◌else◌, ◌==◌, take, map,
}
use kierki_sik.Prelude.Int.{ℤ, pos, negsuc}
use kierki_sik.Klient.{
  Klient, Ending, Event, normal_end, disconnected, server_disconnect, shown, sent, finished,
}
use kierki_sik.Klient.Commands.{read_command}

-- `client_read_pipe[i]`, `client_write_pipe[i]` and the socket.
pub data Fd : Type 0 where
  client_read_pipe client_write_pipe : ℕ → Fd
  socket : Fd

-- `tells_worker` writes an ending to a pipe, `wakes_worker` CARD_PLAY.
pub data Step : Type 0 where
  opens closes : Fd → Step
  says shows : Bytes → Step
  sends_iam starts_worker wakes_worker joins_worker : Step
  tells_worker : Ending → Step

abbrev pub read_ends : List Fd
read_ends = client_read_pipe 0 ∷ client_read_pipe 1 ∷ []

abbrev pub write_ends : List Fd
write_ends = client_write_pipe 0 ∷ client_write_pipe 1 ∷ []

-- `close_pipe_sockets`.
abbrev pub close_pipe_sockets : List Step
close_pipe_sockets = map closes (read_ends ++ write_ends)

-- What `prepare_client` is answered: the two calls of `pipe`, the resolver (`none` is -1), `socket`, `connect`, the write of IAM, and the exception of the thread's constructor.
pub record Answers : Type 0 where
  pub made_read : Bool
  pub made_write : Bool
  pub resolved : Option ℕ
  pub created : Bool
  pub connected : Bool
  pub greeted : Bool
  pub thrown : Option Bytes

-- After the socket was created.
unfoldable pub greet : Answers → Bool × List Step
greet a =
    if not a.connected
    then (false, says (codes "Failed to connect to server.") ∷ closes socket ∷ close_pipe_sockets)
    else if not a.greeted
    then (false, sends_iam ∷ says (codes "Failed to send seat name.") ∷ closes socket ∷ [])
    else elim a.thrown [
      | some what ↦ (false, sends_iam ∷ says what ∷ closes socket ∷ [])
      | none ↦ (true, sends_iam ∷ starts_worker ∷ [])
    ]

-- After the pipes were created.
unfoldable pub reach_server : Answers → Bool × List Step
unfolding greet
reach_server a = elim a.resolved [
  | none ↦ (false, close_pipe_sockets)
  | some n ↦
      if a.created
      then (let (ok, log) = greet a in (ok, opens socket ∷ log))
      else (false, says (codes "Failed to create socket.") ∷ [])
]

-- `prepare_client`: whether it gives a socket, and what it does.
unfoldable pub prepare_client : Answers → Bool × List Step
unfolding reach_server
prepare_client a =
    if not a.made_read
    then (false, says (codes "Failed to create pipes.") ∷ [])
    else if not a.made_write
    then (
      false,
      map opens read_ends ++ map closes read_ends ++ says (codes "Failed to create pipes.") ∷ [],
    )
    else (let (ok, log) = reach_server a in (ok, map opens (read_ends ++ write_ends) ++ log))

pub record Main : Type 0 where
  pub klient : Klient
  pub log : List Step
  -- What the exception of `join` says, if there is one.
  pub thrown : Option Bytes

-- The loop goes on, or the function has returned a value.
pub data Exit : Type 0 where
  staying : Main → Exit
  exits : ℤ → Main → Exit

abbrev pub and_then : Exit → (Main → Exit) → Exit
and_then (staying m) f = f m
and_then (exits code m) f = exits code m

abbrev pub says_thrown : Option Bytes → List Step
says_thrown none = []
says_thrown (some what) = says what ∷ []

abbrev pub note : Bytes → List Step
note [] = []
note (c ∷ message) = says (c ∷ message) ∷ []

-- `close_main_sockets`; the flag says whether its first argument is 1.
abbrev pub close_main_sockets : Bool → Bytes → Option Bytes → List Step
close_main_sockets b_one error_message thrown =
    note error_message
    ++ (if b_one then joins_worker ∷ says_thrown thrown else [])
    ++ close_pipe_sockets

-- `close_main`, with whether its write to the pipe, if there is one, is complete.
abbrev pub close_main : Bool → Bytes → Ending → Option Bytes → List Step
close_main b_written error_message disconnected thrown =
    says (codes "Failed to notify worker.")
    ∷ says error_message
    ∷ close_main_sockets false [] thrown
close_main b_written error_message ending thrown =
    (if b_written then tells_worker ending else says (codes "Failed to notify worker."))
    ∷ says error_message
    ∷ close_main_sockets b_written [] thrown

-- Every caller passes DISCONNECTED.
unfoldable pub quit : ℤ → Bytes → Main → Exit
quit code error_message m =
    exits code (record m { log = m.log ++ close_main false error_message disconnected m.thrown })

-- The result of a write to a pipe.
pub data Wrote : Type 0 where
  one zero_bytes negative : Wrote

-- The standard input after a poll, one event at a time, with the line that is read and the result of the write that wakes
-- the worker.
pub data Input : Type 0 where
  idle input_error : Input
  line : Bytes → Wrote → Input

-- The pipe from the worker; `byte none` is none of its three endings.
pub data FromWorker : Type 0 where
  quiet pipe_closed pipe_failed : FromWorker
  byte : Option Ending → FromWorker

pub data Polled : Type 0 where
  poll_failed : Polled
  ready : Input → FromWorker → Polled

abbrev pub shown_steps : List Event → List Step
shown_steps [] = []
shown_steps (shown text ∷ events) = shows text ∷ shown_steps events
shown_steps (_ ∷ events) = shown_steps events

-- A line of a human player. The write is judged as if it were a read.
unfoldable pub read_line : Input → Main → Exit
unfolding quit
read_line idle m = staying m
read_line input_error m = staying m
read_line (line text wrote) m =
    let (k, events) = read_command text m.klient in
    let m' = record m { klient = k; log = m.log ++ shown_steps events } in
    if same (take 1 text) (codes "!")
    then elim wrote [
      | one ↦ staying (record m' { log = m'.log ++ wakes_worker ∷ [] })
      | zero_bytes ↦ quit (negsuc 0) (codes "Client disconnected.") m'
      | negative ↦ quit (negsuc 0) (codes "Failed to read from pipe.") m'
    ]
    else staying m'

abbrev pub exit_code : Ending → ℤ
exit_code normal_end = pos 0
exit_code _ = pos 1

-- The worker's pipe; if it holds nothing, an error on the standard input ends the client.
unfoldable pub heed_worker : Input → FromWorker → Main → Exit
unfolding quit
heed_worker input (byte (some ending)) m =
    exits (exit_code ending) (record m { log = m.log ++ close_main_sockets true [] m.thrown })
heed_worker input (byte none) m = quit (pos 1) (codes "Wrong message from worker.") m
heed_worker input pipe_closed m = quit (pos 1) (codes "Client disconnected.") m
heed_worker input pipe_failed m = quit (pos 1) (codes "Failed to read from pipe.") m
heed_worker input_error quiet m =
    exits (pos 1)
      (record m { log = m.log ++ close_main_sockets true (codes "WORKER_POLLERR") m.thrown })
heed_worker input quiet m = staying m

-- The standard input of an automatic player is not polled.
abbrev pub polled_input : Main → Input → Input
polled_input m input = if m.klient.is_ai then idle else input

unfoldable pub main_round : Polled → Main → Exit
unfolding read_line heed_worker
main_round poll_failed m = quit (pos 1) (codes "Failed to poll in main client.") m
main_round (ready input worker) m =
    let input' = polled_input m input in and_then (read_line input' m) (heed_worker input' worker)

-- `while (true)`, for the outcomes of its polls.
unfoldable pub main_loop : List Polled → Main → Exit
unfolding main_round
main_loop [] m = staying m
main_loop (polled ∷ rest) m = and_then (main_round polled m) (main_loop rest)

unfoldable pub run_client : Answers → List Polled → Main → Exit
unfolding prepare_client main_loop
run_client a polls m =
    let (ok, log) = prepare_client a in
    let m' = record m { log = m.log ++ log } in if ok then main_loop polls m' else exits (pos 1) m'
