-- ===== src/Server/Running/Outcomes.antt =====
-- The steps of the main thread: what they leave as it is, and that they return only after they have
-- closed the server.
use kierki_sik.Prelude.{
  ℕ, ◌+◌, ◌≤◌, ◌<◌, ◌≡◌, refl, ◌∙◌, List, [], ◌∷◌, ◌++◌, Bool, true, false, none, some, Bytes,
  codes, if◌then◌else◌, ◌==◌, ltb, length, length-append, arith,
}
use kierki_sik.Server.{Serwer, Signal, answer, disconnected, barrier_response, barrier_end}
use kierki_sik.Server.Running.{
  Desk, Course, going, returned, thrown, waiting, ◌>>=◌, tell, tell_all, barrier, Meeting,
  first_meeting, later_meetings, meet_byte, meet_pipe, meet_pipes, meet, with_occupied,
  with_ongoing, Seen, nothing, pipe_closed, pipe_failed, pipe_error, byte,
}

-- How a course that starts at `d` goes: on with what `P` says, or to a return behind one more call of
-- `close_server` at least.
abbrev pub Goes : Desk → (Desk → Type 0) → Course → Type 0
Goes d P (going e) = P e × (length d.closings ≤ length e.closings)
Goes d P (returned e) = length d.closings < length e.closings
Goes d P (thrown e) = Unit {0}
Goes d P (waiting e) = Unit {0}

pub bind-Goes :
    (d : Desk) (Q P : Desk → Type 0) (x : Course) (f : Desk → Course)
    → Goes d Q x
    → ((e : Desk) → Q e → Goes e P (f e))
    → Goes d P (x >>= f)
bind-Goes d Q P (going e) f (q, l) more = go (f e) (more e q)
  where
    go : (y : Course) → Goes e P y → Goes d P y
    go (going u) (p, k) = (p, omega arith)
    go (returned u) k = omega arith
    go (thrown u) k = tt
    go (waiting u) k = tt
bind-Goes d Q P (returned e) f q more = q
bind-Goes d Q P (thrown e) f q more = tt
bind-Goes d Q P (waiting e) f q more = tt

-- What `P` says follows from what `Q` says.
pub map-Goes :
    (d : Desk) (Q P : Desk → Type 0) (x : Course)
    → Goes d Q x
    → ((e : Desk) → Q e → P e)
    → Goes d P x
map-Goes d Q P (going e) (q, l) more = (more e q, l)
map-Goes d Q P (returned e) q more = q
map-Goes d Q P (thrown e) q more = tt
map-Goes d Q P (waiting e) q more = tt

-- The state without what the barriers change in it.
abbrev pub settled : Serwer → Serwer
settled s = record s { occupied = 0; b_is_barrier_ongoing = false }

-- The state outside the barriers, the scores and the flag are the same.
pub record Same (d e : Desk) : Type 0 where
  pub server : settled e.server ≡ settled d.server
  pub scores : e.scores ≡ d.scores
  pub received : e.b_received_card ≡ d.b_received_card

pub refl-Same : (d : Desk) → Same d d
refl-Same d = record { server = refl; scores = refl; received = refl }

pub trans-Same : (d e u : Desk) → Same d e → Same e u → Same d u
trans-Same d e u p q = record {
  server = q.server ∙ p.server;
  scores = q.scores ∙ p.scores;
  received = q.received ∙ p.received;
}

pub closed_once : (d : Desk) (m : Bytes) → length d.closings < length (d.closings ++ m ∷ [])
closed_once d m = omega (arith, length-append d.closings (m ∷ []))

pub if-Goes :
    (d : Desk) (P : Desk → Type 0) (b : Bool) (x y : Course)
    → Goes d P x
    → Goes d P y
    → Goes d P (if b then x else y)
if-Goes d P true x y hx hy = hx
if-Goes d P false x y hx hy = hy

pub tell-Goes : (m : Signal) (i : ℕ) (d : Desk) → Goes d (Same d) (tell m i d)
unfolding tell
tell-Goes m i d =
    if-Goes d (Same d) (answer d.writes) _ _
      (record { server = refl; scores = refl; received = refl }, omega arith)
      (closed_once d (codes "Failed to notify thread."))

pub tell_all-Goes : (m : Signal) (d : Desk) → Goes d (Same d) (tell_all m d)
unfolding tell_all
tell_all-Goes m d =
    bind-Goes d (Same d) (Same d) _ _
      (bind-Goes d (Same d) (Same d) _ _
        (bind-Goes d (Same d) (Same d) _ _ (tell-Goes m 0 d) (next 1)) (next 2))
      (next 3)
  where
    next : (i : ℕ) (e : Desk) → Same d e → Goes e (Same d) (tell m i e)
    next i e same =
        map-Goes e (Same e) (Same d) _ (tell-Goes m i e) (λ u q. trans-Same d e u same q)

-- A course that starts later, from a desk that has not closed the server less often.
pub start-Goes :
    (d d' : Desk) (P : Desk → Type 0) (x : Course)
    → length d.closings ≤ length d'.closings
    → Goes d' P x
    → Goes d P x
start-Goes d d' P (going e) l (p, k) = (p, omega arith)
start-Goes d d' P (returned e) l k = omega arith
start-Goes d d' P (thrown e) l k = tt
start-Goes d d' P (waiting e) l k = tt

-- One step behind another that left the desk the same.
after-Goes : (d e : Desk) (x : Course) → Same d e → Goes e (Same e) x → Goes e (Same d) x
after-Goes d e x same g = map-Goes e (Same e) (Same d) x g (λ u q. trans-Same d e u same q)

meet_byte-Goes : (i : ℕ) (m : Signal) (d : Desk) → Goes d (Same d) (meet_byte i m d)
unfolding meet_byte
meet_byte-Goes i barrier_response d = (refl-Same d, omega arith)
meet_byte-Goes i disconnected d =
    if-Goes d (Same d) (i == 4) _ _ (closed_once d (codes "Connection thread failed."))
      (tell-Goes barrier_response i d)
meet_byte-Goes i _ d = closed_once d (codes "Invalid message in barrier poll.")

meet_pipe-Goes : (i : ℕ) (seen : Seen) (d : Desk) → Goes d (Same d) (meet_pipe i seen d)
unfolding meet_pipe
meet_pipe-Goes i nothing d = (refl-Same d, omega arith)
meet_pipe-Goes i (byte m) d = meet_byte-Goes i m d
meet_pipe-Goes i pipe_closed d = closed_once d (codes "Thread closed its pipes (illegal).")
meet_pipe-Goes i pipe_failed d = closed_once d (codes "Failed to read from server thread.")
meet_pipe-Goes i pipe_error d = closed_once d (codes "Poll error in barrier poll.")

meet_pipes-Goes : (i : ℕ) (pipes : List Seen) (d : Desk) → Goes d (Same d) (meet_pipes i pipes d)
unfolding meet_pipes
meet_pipes-Goes i [] d = (refl-Same d, omega arith)
meet_pipes-Goes i (seen ∷ pipes) d =
    bind-Goes d (Same d) (Same d) _ _ (meet_pipe-Goes i seen d)
      (λ e q. after-Goes d e _ q (meet_pipes-Goes (i + 1) pipes e))

-- The count and the flag of a barrier may change.
counted :
    (d e e' : Desk)
    → Same d e
    → settled e'.server ≡ settled e.server
    → e'.scores ≡ e.scores
    → e'.b_received_card ≡ e.b_received_card
    → Same d e'
counted d e e' q s p r = trans-Same d e e' q (record { server = s; scores = p; received = r })

meet-Goes : (rounds : Meeting) (d : Desk) → Goes d (Same d) (meet rounds d)
unfolding meet
meet-Goes [] d = tt
meet-Goes (none ∷ rounds) d = closed_once d (codes "Failed to poll while waiting for clients.")
meet-Goes (some (pipes, occupied) ∷ rounds) d =
    bind-Goes d (Same d) (Same d) _ _ (meet_pipes-Goes 0 pipes d) (λ e q.
      if-Goes e (Same d) (ltb occupied 4) _ _
        (start-Goes e (with_occupied occupied e) (Same d) _ (omega arith) (
          after-Goes d (with_occupied occupied e) _
            (counted d e (with_occupied occupied e) q refl refl refl)
            (meet-Goes rounds (with_occupied occupied e))))
        (over e q (occupied == 4)))
  where
    over :
        (e : Desk)
        → Same d e
        → (b : Bool)
        → Goes e (Same d) (
            going (
              if b
              then with_ongoing false (with_occupied occupied e)
              else with_occupied occupied e))
    over e q true =
        (counted d e (with_ongoing false (with_occupied occupied e)) q refl refl refl, omega arith)
    over e q false = (counted d e (with_occupied occupied e) q refl refl refl, omega arith)

pub barrier-Goes : (d : Desk) → Goes d (Same d) (barrier d)
unfolding barrier
barrier-Goes d =
    let d' =
      with_ongoing true (with_occupied 0 (record d { barriers = later_meetings d.barriers })) in
    start-Goes d d' (Same d) _ (omega arith) (
      bind-Goes d' (Same d) (Same d) _ _
        (bind-Goes d' (Same d) (Same d) _ _
          (after-Goes d d' _ (record { server = refl; scores = refl; received = refl })
            (tell_all-Goes barrier_response d'))
          (λ e q. after-Goes d e _ q (meet-Goes (first_meeting d.barriers) e)))
        (λ e q. after-Goes d e _ q (tell_all-Goes barrier_end e)))
