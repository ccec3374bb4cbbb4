-- ===== src/Klient/Running/Proceeds.antt =====
-- How the client's main thread gets on, and how it ends: what is said of each.
use kierki_sik.Prelude.{
  ◌≡◌, ◌≢◌, sym, ap, ◌∙◌, List, [], ◌∷◌, ◌++◌, append-nil, append_assoc, Option, none, some, Bytes,
  codes, All, All-append, subst,
}
use kierki_sik.Prelude.Int.{ℤ, pos, negsuc}
use kierki_sik.Klient.{Ending, normal_end}
use kierki_sik.Klient.Running.{
  Step, says, shows, wakes_worker, joins_worker, close_pipe_sockets, Main, Exit, staying, exits,
  and_then, says_thrown, zero_bytes, negative, Input, input_error, line, FromWorker, quiet,
  pipe_closed, pipe_failed, byte, Polled, poll_failed, ready,
}

-- Work that ends nothing.
abbrev pub IsWork : Step → Type 0
IsWork (shows text) = Unit {0}
IsWork wakes_worker = Unit {0}
IsWork _ = ⊥

-- A poll at which the worker's pipe holds nothing.
abbrev pub IsSilent : Polled → Type 0
IsSilent (ready input quiet) = Unit {0}
IsSilent _ = ⊥

-- The outcomes of a poll that end the client with an error, and the value that is then returned.
pub data IsFault : Polled → ℤ → Bytes → Type 0 where
  no_poll : IsFault poll_failed (pos 1) (codes "Failed to poll in main client.")
  garbage :
      (input : Input)
      → IsFault (ready input (byte none)) (pos 1) (codes "Wrong message from worker.")
  worker_closed :
      (input : Input) → IsFault (ready input pipe_closed) (pos 1) (codes "Client disconnected.")
  worker_failed :
      (input : Input)
      → IsFault (ready input pipe_failed) (pos 1) (codes "Failed to read from pipe.")
  unwoken :
      (text : Bytes) (worker : FromWorker)
      → IsFault (ready (line text zero_bytes) worker) (negsuc 0) (codes "Client disconnected.")
  wake_failed :
      (text : Bytes) (worker : FromWorker)
      → IsFault (ready (line text negative) worker) (negsuc 0) (codes "Failed to read from pipe.")

-- What ends the client, the value that is returned, and the last steps: the worker has reported its
-- end and is joined, or an error, in which the worker is neither told nor joined, or an error event
-- of the standard input.
pub data IsLast (thrown : Option Bytes) : Polled → ℤ → List Step → Type 0 where
  after_normal_end :
      (input : Input)
      → IsLast thrown
          (ready input (byte (some normal_end)))
          (pos 0)
          (joins_worker ∷ (says_thrown thrown ++ close_pipe_sockets))
  after_failure :
      (input : Input) (ending : Ending)
      → ending ≢ normal_end
      → IsLast thrown
          (ready input (byte (some ending)))
          (pos 1)
          (joins_worker ∷ (says_thrown thrown ++ close_pipe_sockets))
  abandoning :
      (polled : Polled) (code : ℤ) (error_message : Bytes)
      → IsFault polled code error_message
      → IsLast thrown polled code
          (says (codes "Failed to notify worker.") ∷ says error_message ∷ close_pipe_sockets)
  on_input_error :
      IsLast thrown
        (ready input_error quiet)
        (pos 1)
        (says (codes "WORKER_POLLERR") ∷ joins_worker ∷ (says_thrown thrown ++ close_pipe_sockets))

-- How far the main thread gets from `m`: `Calm` says what is true if it goes on, and `Last` how it ends.
abbrev pub Proceeds : Type 0 → (Option Bytes → ℤ → List Step → Type 0) → Main → Exit → Type 0
Proceeds Calm Last m (staying n) =
    (done : List Step) × (n.log ≡ m.log ++ done) × All IsWork done × (n.thrown ≡ m.thrown) × Calm
Proceeds Calm Last m (exits code n) =
    (done : List Step) × (last : List Step) × (n.log ≡ (m.log ++ done) ++ last)
    × All IsWork done
    × Last m.thrown code last

-- The first of the polls that is not silent ends the client.
abbrev pub Ended : List Polled → Option Bytes → ℤ → List Step → Type 0
Ended polls thrown code last =
    (earlier : List Polled) × (polled : Polled) × (later : List Polled) × (polls
      ≡ earlier ++ polled ∷ later)
    × All IsSilent earlier
    × IsLast thrown polled code last

-- How far the main thread gets from `m` with these polls.
abbrev pub Runs : List Polled → Main → Exit → Type 0
Runs polls m exit = Proceeds (All IsSilent polls) (Ended polls) m exit

pub at_once :
    (C : Type 0) (P : Option Bytes → ℤ → List Step → Type 0) (m : Main) (code : ℤ)
    (last : List Step)
    → P m.thrown code last
    → Proceeds C P m (exits code (record m { log = m.log ++ last }))
at_once C P m code last h = ([], last, ap (λ l. l ++ last) (sym (append-nil m.log)), tt, h)

-- One part of the work behind another.
pub and_then-Proceeds :
    (C D : Type 0) (P Q : Option Bytes → ℤ → List Step → Type 0) (m : Main) (x : Exit)
    (f : Main → Exit)
    → Proceeds C P m x
    → ((b : Option Bytes) (code : ℤ) (last : List Step) → P b code last → Q b code last)
    → ((n : Main) → C → Proceeds D Q n (f n))
    → Proceeds D Q m (and_then x f)
and_then-Proceeds C D P Q m (staying n) f (done, e, h, d, c) lift more = go (f n) (more n c)
  where
    go : (y : Exit) → Proceeds D Q n y → Proceeds D Q m y
    go (staying u) (later, e', h', d', c') = (
      done ++ later,
      e' ∙ ap (λ l. l ++ later) e ∙ append_assoc m.log done later,
      All-append IsWork done later h h',
      d' ∙ d,
      c',
    )
    go (exits code u) (later, last, e', h', p) = (
      done ++ later,
      last,
      e' ∙ ap (λ l. (l ++ later) ++ last) e ∙ ap (λ l. l ++ last) (append_assoc m.log done later),
      All-append IsWork done later h h',
      subst (λ b. Q b code last) d p,
    )
and_then-Proceeds C D P Q m (exits code n) f (done, last, e, h, p) lift more =
    (done, last, e, h, lift m.thrown code last p)

-- The same, with what is said of it changed.
pub map-Proceeds :
    (C D : Type 0) (P Q : Option Bytes → ℤ → List Step → Type 0) (m : Main) (x : Exit)
    → Proceeds C P m x
    → (C → D)
    → ((b : Option Bytes) (code : ℤ) (last : List Step) → P b code last → Q b code last)
    → Proceeds D Q m x
map-Proceeds C D P Q m (staying n) (done, e, h, d, c) f g = (done, e, h, d, f c)
map-Proceeds C D P Q m (exits code n) (done, last, e, h, p) f g =
    (done, last, e, h, g m.thrown code last p)
