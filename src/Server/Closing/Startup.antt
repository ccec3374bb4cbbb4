-- ===== src/Server/Closing/Startup.antt =====
-- Starting the server: what a start that fails leaves open.
use kierki_sik.Prelude.{
  ℕ, zero, suc, ◌+◌, ◌≡◌, refl, sym, subst, ap, ◌∙◌, List, [], ◌∷◌, ◌++◌, append_assoc, append-nil,
  Bool, true, false, Option, none, some, Bytes, codes, arith, if◌then◌else◌,
}
use mathlib.Core.List.{perm_append_comm}
use mathlib.Core.List.Perm
use kierki_sik.Server.{answer, later}
use kierki_sik.Server.Closing.{
  Descriptor, both_ends, pipes_at, read_pipe, write_pipe, opens, starts_connections, Main, act,
  open_pipe, create_pipes, close_server, close_each, meet_clients, start_game, reading, writing,
}
use kierki_sik.Server.Running.{Desk, Course, going, returned, thrown, waiting, barrier}
use kierki_sik.Server.Running.Once.{Once, barrier-Once}
use kierki_sik.Server.Closing.Descriptors.{
  opened, closed, opened-append, closed-append, pipes_from, pipes_from_last, next-Closes,
  close_fds-Closes, close_first-Closes, HasOpen, IsTidy, idle-HasOpen, open-HasOpen, tidy,
  close_server-Closes,
}

-- How the loop over the pipes ends: all are open, or nothing is.
abbrev Made : ℕ → Bool × Main → Type 0
Made n (true, m) = HasOpen (pipes_from n 0) m
Made n (false, m) = IsTidy m

chosen-Made :
    (n : ℕ) (a b : Bool) (x y z : Bool × Main)
    → Made n x
    → Made n y
    → Made n z
    → Made n (if a then if b then x else y else z)
chosen-Made n true true x y z hx hy hz = hx
chosen-Made n true false x y z hx hy hz = hy
chosen-Made n false b x y z hx hy hz = hz

regroup :
    (xs : List Descriptor) (a b c d : Descriptor)
    → ((xs ++ a ∷ b ∷ []) ++ c ∷ []) ++ d ∷ [] ≡ xs ++ a ∷ b ∷ c ∷ d ∷ []
regroup xs a b c d = simp append_assoc

pipe-HasOpen :
    (i : ℕ) (m : Main)
    → HasOpen (pipes_from i 0) m
    → HasOpen (pipes_from i 0 ++ both_ends (read_pipe i)) (open_pipe (read_pipe i) m)
pipe-HasOpen i m h =
    subst (λ l. HasOpen l (open_pipe (read_pipe i) m))
      (append_assoc (pipes_from i 0) ((read_pipe i, reading) ∷ []) ((read_pipe i, writing) ∷ []))
      (open-HasOpen _ (read_pipe i, writing) (act (opens (read_pipe i, reading)) m)
        (open-HasOpen (pipes_from i 0) (read_pipe i, reading) m h))

pipes-HasOpen :
    (i : ℕ) (m : Main)
    → HasOpen (pipes_from i 0) m
    → HasOpen (pipes_from (i + 1) 0) (open_pipe (write_pipe i) (open_pipe (read_pipe i) m))
pipes-HasOpen i m h =
    subst (λ l. HasOpen l (open_pipe (write_pipe i) (open_pipe (read_pipe i) m))) same_pipes
      (open-HasOpen _ (write_pipe i, writing)
        (act (opens (write_pipe i, reading)) (open_pipe (read_pipe i) m))
        (open-HasOpen _ (write_pipe i, reading) (open_pipe (read_pipe i) m) (pipe-HasOpen i m h)))
  where
    next : suc i ≡ i + 1
    next = omega arith

    same_pipes :
        ((pipes_from i 0 ++ both_ends (read_pipe i)) ++ (write_pipe i, reading) ∷ [])
          ++ (write_pipe i, writing) ∷ []
        ≡ pipes_from (i + 1) 0
    same_pipes =
        regroup (pipes_from i 0) _ _ _ _
        ∙ ap (λ k. pipes_from i 0 ++ pipes_at k) (omega arith)
        ∙ sym (pipes_from_last i 0)
        ∙ ap (λ k. pipes_from k 0) next

create_pipes-Made :
    (n i : ℕ) (made : List Bool) (m : Main)
    → HasOpen (pipes_from i 0) m
    → Made (n + i) (create_pipes n i made m)
unfolding create_pipes
create_pipes-Made zero i made m h = subst (λ k. HasOpen (pipes_from k 0) m) (omega arith) h
create_pipes-Made (suc n) i made m h =
    chosen-Made (suc n + i) (answer made) (answer (later made)) _ _ _
      (subst
        (λ k. Made k (
          create_pipes n (i + 1) (later (later made))
            (open_pipe (write_pipe i) (open_pipe (read_pipe i) m))))
        (omega arith)
        (create_pipes-Made n (i + 1) (later (later made))
          (open_pipe (write_pipe i) (open_pipe (read_pipe i) m)) (pipes-HasOpen i m h)))
      (tidy (pipes_from i 0 ++ both_ends (read_pipe i)) (both_ends (read_pipe i) ++ pipes_from i 0)
        _ _
        (idle-HasOpen _ (codes "Failed to create pipes.") (open_pipe (read_pipe i) m)
          (pipe-HasOpen i m h))
        (next-Closes (both_ends (read_pipe i)) (pipes_from i 0) _ _ _
          (close_fds-Closes (both_ends (read_pipe i)) _) (close_first-Closes i 0 _))
        (perm_append_comm (pipes_from i 0) (both_ends (read_pipe i))))
      (tidy (pipes_from i 0) (pipes_from i 0) _ _
        (idle-HasOpen (pipes_from i 0) (codes "Failed to create pipes.") m h)
        (close_first-Closes i 0 _) Perm.rfl)

-- How the start of the game ends: the barrier waits for ever, or it is over, all pipes are open and
-- the connection thread runs, or the start has failed, and nothing is left open.
abbrev pub Started : Desk → Option (Bool × Main) → Type 0
Started d none = (e : Desk) × (barrier (record d { closings = [] }) ≡ waiting e)
Started d (some (true, m)) =
    (e : Desk) × (barrier (record d { closings = [] }) ≡ going e)
    × (opened m.log ≡ pipes_from 5 0)
    × (closed m.log ≡ [])
Started d (some (false, m)) = IsTidy m

close_each-IsTidy :
    (message : Bytes) (messages : List Bytes) (ids : List ℕ) (m : Main)
    → messages ≡ message ∷ []
    → HasOpen (pipes_from 5 0) m
    → IsTidy (close_each messages ids m)
close_each-IsTidy message messages ids m e h = subst (λ l. IsTidy (close_each l ids m)) (sym e) once
  where
    once : IsTidy (close_each (message ∷ []) ids m)
    once =
        unfold close_each in
        tidy (pipes_from 5 0) (pipes_from 5 0) m _ h (close_server-Closes message ids m) Perm.rfl

-- The start behind the creation of the connection thread.
meet_clients-Started :
    (ids : List ℕ) (d : Desk) (m : Main) (x : Course)
    → barrier (record d { closings = [] }) ≡ x
    → Once [] x
    → HasOpen (pipes_from 5 0) m
    → Started d (meet_clients ids x m)
unfolding meet_clients
meet_clients-Started ids d m (going e) q o h = (e, q, h.there, h.untouched)
meet_clients-Started ids d m (returned e) q (message, o) h =
    close_each-IsTidy message e.closings ids m o h
meet_clients-Started ids d m (thrown e) q o h = absurd o
meet_clients-Started ids d m (waiting e) q o h = (e, q)

starting-HasOpen :
    (fds : List Descriptor) (m : Main) → HasOpen fds m → HasOpen fds (act starts_connections m)
unfolding opened closed
starting-HasOpen fds m h = record {
  there = opened-append m.log (starts_connections ∷ []) ∙ append-nil (opened m.log) ∙ h.there;
  untouched =
      closed-append m.log (starts_connections ∷ []) ∙ append-nil (closed m.log) ∙ h.untouched;
}

-- A start of the server that fails, whichever call of `pipe` is refused, if the thread cannot be
-- created, or if the first barrier fails for any reason, closes exactly the descriptors that it
-- opened, each once. A start that succeeds has opened both ends of the ten pipes, closed none, and its
-- barrier is over; the only other outcome is a barrier that waits for ever.
pub start_game-Started :
    (made : List Bool) (connections : Option Bytes) (client_threads : List ℕ) (d : Desk) (m : Main)
    → m.log ≡ []
    → Started d (start_game made connections client_threads d m)
unfolding start_game opened closed
start_game-Started made connections client_threads d m fresh =
    go (create_pipes 5 0 made m) connections (
      create_pipes-Made 5 0 made m
        (record { there = ap opened fresh; untouched = ap closed fresh }))
  where
    go :
        (p : Bool × Main) (connections : Option Bytes)
        → Made 5 p
        → Started d (
            if p.0
            then elim connections [
              | some what ↦ some (false, close_server what [] p.1)
              | none ↦
                  meet_clients client_threads
                    (barrier (record d { closings = [] }))
                    (act starts_connections p.1)
            ]
            else some (false, p.1))
    go (false, n) connections h = h
    go (true, n) none h =
        meet_clients-Started client_threads d (act starts_connections n)
          (barrier (record d { closings = [] })) refl (barrier-Once (record d { closings = [] }))
          (starting-HasOpen (pipes_from 5 0) n h)
    go (true, n) (some what) h =
        tidy (pipes_from 5 0) (pipes_from 5 0) n _ h (close_server-Closes what [] n) Perm.rfl
