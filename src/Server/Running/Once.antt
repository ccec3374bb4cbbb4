-- ===== src/Server/Running/Once.antt =====
-- A barrier that fails has called `close_server` exactly once.
use kierki_sik.Prelude.{
  ℕ, ◌+◌, ◌≡◌, refl, ap, List, [], ◌∷◌, ◌++◌, Bool, true, false, none, some, Bytes, codes,
  if◌then◌else◌, ◌==◌, ltb,
}
use kierki_sik.Server.{Signal, answer, disconnected, barrier_response, barrier_end}
use kierki_sik.Server.Running.{
  Desk, Course, going, returned, thrown, waiting, ◌>>=◌, closing, tell, tell_all, barrier, Meeting,
  first_meeting, later_meetings, meet_byte, meet_pipe, meet_pipes, meet, with_occupied,
  with_ongoing, Seen, nothing, pipe_closed, pipe_failed, pipe_error, byte,
}

-- From a desk with these closings, a course goes on without a call of `close_server`, returns behind
-- exactly one, or waits for ever, and no exception escapes.
abbrev pub Once : List Bytes → Course → Type 0
Once closings (going e) = e.closings ≡ closings
Once closings (returned e) = (message : Bytes) × (e.closings ≡ closings ++ message ∷ [])
Once closings (thrown e) = ⊥
Once closings (waiting e) = Unit {0}

bind-Once :
    (l : List Bytes) (x : Course) (f : Desk → Course)
    → Once l x
    → ((e : Desk) → e.closings ≡ l → Once l (f e))
    → Once l (x >>= f)
bind-Once l (going e) f h more = more e h
bind-Once l (returned e) f h more = h
bind-Once l (thrown e) f h more = h
bind-Once l (waiting e) f h more = tt

closing-Once :
    (l : List Bytes) (message : Bytes) (d : Desk)
    → d.closings ≡ l
    → Once l (returned (closing message d))
closing-Once l message d e = (message, ap (λ k. k ++ message ∷ []) e)

if-Once :
    (l : List Bytes) (b : Bool) (x y : Course) → Once l x → Once l y → Once l (if b then x else y)
if-Once l true x y hx hy = hx
if-Once l false x y hx hy = hy

tell-Once : (l : List Bytes) (m : Signal) (i : ℕ) (d : Desk) → d.closings ≡ l → Once l (tell m i d)
unfolding tell
tell-Once l m i d e =
    if-Once l (answer d.writes) _ _ e
      (codes "Failed to notify thread.", ap (λ k. k ++ codes "Failed to notify thread." ∷ []) e)

tell_all-Once : (l : List Bytes) (m : Signal) (d : Desk) → d.closings ≡ l → Once l (tell_all m d)
unfolding tell_all
tell_all-Once l m d e =
    bind-Once l _ _
      (bind-Once l _ _ (bind-Once l _ _ (tell-Once l m 0 d e) (λ u q. tell-Once l m 1 u q))
        (λ u q. tell-Once l m 2 u q))
      (λ u q. tell-Once l m 3 u q)

meet_byte-Once :
    (l : List Bytes) (i : ℕ) (m : Signal) (d : Desk) → d.closings ≡ l → Once l (meet_byte i m d)
unfolding meet_byte
meet_byte-Once l i barrier_response d e = e
meet_byte-Once l i disconnected d e =
    if-Once l (i == 4) _ _ (closing-Once l (codes "Connection thread failed.") d e)
      (tell-Once l barrier_response i d e)
meet_byte-Once l i _ d e = closing-Once l (codes "Invalid message in barrier poll.") d e

meet_pipe-Once :
    (l : List Bytes) (i : ℕ) (seen : Seen) (d : Desk) → d.closings ≡ l → Once l (meet_pipe i seen d)
unfolding meet_pipe
meet_pipe-Once l i nothing d e = e
meet_pipe-Once l i (byte m) d e = meet_byte-Once l i m d e
meet_pipe-Once l i pipe_closed d e = closing-Once l (codes "Thread closed its pipes (illegal).") d e
meet_pipe-Once l i pipe_failed d e = closing-Once l (codes "Failed to read from server thread.") d e
meet_pipe-Once l i pipe_error d e = closing-Once l (codes "Poll error in barrier poll.") d e

meet_pipes-Once :
    (l : List Bytes) (i : ℕ) (pipes : List Seen) (d : Desk)
    → d.closings ≡ l
    → Once l (meet_pipes i pipes d)
unfolding meet_pipes
meet_pipes-Once l i [] d e = e
meet_pipes-Once l i (seen ∷ pipes) d e =
    bind-Once l _ _ (meet_pipe-Once l i seen d e) (λ u q. meet_pipes-Once l (i + 1) pipes u q)

over-Once :
    (l : List Bytes) (b : Bool) (occupied : ℕ) (d : Desk)
    → d.closings ≡ l
    → Once l (
        going
          (if b then with_ongoing false (with_occupied occupied d) else with_occupied occupied d))
over-Once l true occupied d e = e
over-Once l false occupied d e = e

meet-Once : (l : List Bytes) (rounds : Meeting) (d : Desk) → d.closings ≡ l → Once l (meet rounds d)
unfolding meet
meet-Once l [] d e = tt
meet-Once l (none ∷ rounds) d e =
    closing-Once l (codes "Failed to poll while waiting for clients.") d e
meet-Once l (some (pipes, occupied) ∷ rounds) d e =
    bind-Once l _ _ (meet_pipes-Once l 0 pipes d e) (λ u q.
      if-Once l (ltb occupied 4) _ _ (meet-Once l rounds (with_occupied occupied u) q)
        (over-Once l (occupied == 4) occupied u q))

pub barrier-Once : (d : Desk) → Once d.closings (barrier d)
unfolding barrier
barrier-Once d =
    let l = d.closings in
    let d' =
      with_ongoing true (with_occupied 0 (record d { barriers = later_meetings d.barriers })) in
    bind-Once l _ _
      (bind-Once l _ _ (tell_all-Once l barrier_response d' refl)
        (λ e q. meet-Once l (first_meeting d.barriers) e q))
      (λ e q. tell_all-Once l barrier_end e q)
