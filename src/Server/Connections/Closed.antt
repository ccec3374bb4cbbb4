-- ===== src/Server/Connections/Closed.antt =====
-- How often the connection thread closes its socket.
use kierki_sik.Prelude.{
  ℕ, suc, ◌+◌, ◌≤◌, ◌≡◌, ◌≢◌, refl, subst, ◌∙◌, List, [], ◌∷◌, ◌++◌, Bool, true, false, none, some,
  Bytes, codes, if◌then◌else◌, ◌==◌, All, arith, same,
}
use kierki_sik.Server.{
  World, Event, sent, notified, closed, reported, emit, close_thread, end_signal, disconnected,
  report_error, answer, later, notify, seat_index,
}
use kierki_sik.Server.Poll.{FromServer, silent, pipe_closed, pipe_failed, pipe_error, order}
use kierki_sik.Prelude.Int.{pos}
use kierki_sik.Server.Connections.{
  listening, Incoming, nobody, socket_error, connection, Watched, poll_failed, ready, Listener,
  Watch, watching, returned, and_then, heed_socket, heed_server, watch_round, watch,
  handle_connections,
}

-- How often the descriptor `s` is closed.
unfoldable pub times_closed : ℕ → List Event → ℕ
times_closed s [] = 0
times_closed s (closed fd ∷ es) = let rest = times_closed s es in if fd == s then suc rest else rest
times_closed s (e ∷ es) = times_closed s es

times_closed-append :
    (s : ℕ) (xs ys : List Event) → times_closed s (xs ++ ys) ≡ times_closed s xs + times_closed s ys
unfolding times_closed
times_closed-append s [] ys = omega arith
times_closed-append s (closed fd ∷ xs) ys = ground (arith, times_closed-append s xs ys)
times_closed-append s (sent fd m ∷ xs) ys = times_closed-append s xs ys
times_closed-append s (e ∷ xs) ys = times_closed-append s xs ys

-- From `w` to `v` the socket `s`, the thread's own, is closed `n` times.
pub record Closings (s n : ℕ) (w v : World) : Type 0 where
  pub counted : times_closed s v.events ≡ times_closed s w.events + n
  pub own : v.client.client_fd ≡ w.client.client_fd

next-Closings :
    {s m n : ℕ} {w v u : World} → Closings s m w v → Closings s n v u → Closings s (m + n) w u
next-Closings p q = record { counted = omega (arith, p.counted, q.counted); own = q.own ∙ p.own }

nothing_closed : (s : ℕ) (w : World) → Closings s 0 w w
nothing_closed s w = record { counted = omega arith; own = refl }

said : (s : ℕ) (message : Bytes) (w : World) → Closings s 0 w (emit (reported message) w)
unfolding times_closed
said s message w = record {
  counted = times_closed-append s w.events (reported message ∷ []);
  own = refl;
}

report_error-Closings :
    (s : ℕ) (message : Bytes) (w : World) → Closings s 0 w (report_error message w)
report_error-Closings s [] w = nothing_closed s w
report_error-Closings s (c ∷ message) w = said s (c ∷ message) w

chosen-Closings :
    (s : ℕ) (w : World) (a b : Bool) (x y z : World)
    → Closings s 0 w x
    → Closings s 0 w y
    → Closings s 0 w z
    → Closings s 0 w (if a then if b then x else y else z)
chosen-Closings s w true true x y z hx hy hz = hx
chosen-Closings s w true false x y z hx hy hz = hy
chosen-Closings s w false b x y z hx hy hz = hz

notify-Closings : (s : ℕ) (w : World) → Closings s 0 w (notify disconnected w)
unfolding times_closed
notify-Closings s w = record {
  counted = times_closed-append s w.events (notified (seat_index w.client.seat) disconnected ∷ []);
  own = refl;
}

own-Closings : (s fd : ℕ) (w : World) → fd ≡ s → Closings s 1 w (emit (closed fd) w)
unfolding times_closed
own-Closings s fd w e = record {
  counted = times_closed-append s w.events (closed fd ∷ []) ∙ ground (arith, e);
  own = refl;
}

other-Closings : (s fd : ℕ) (w : World) → fd ≢ s → Closings s 0 w (emit (closed fd) w)
unfolding times_closed
other-Closings s fd w h = record {
  counted = times_closed-append s w.events (closed fd ∷ []) ∙ ground (arith, h);
  own = refl;
}

unheard-Closings :
    (s : ℕ) (message : Bytes) (w : World)
    → Closings s 0 w (emit (reported message) (record w { answers = later w.answers }))
unheard-Closings s message w =
    let p = said s message w in record { counted = p.counted; own = p.own }

close_thread-Closings :
    (s : ℕ) (message : Bytes) (w : World)
    → w.client.client_fd ≡ s
    → Closings s 1 w (close_thread message false false w)
unfolding close_thread
close_thread-Closings s message w e =
    let reporting = report_error-Closings s message w in
    let telling =
      chosen-Closings s (report_error message w) (same w.client.seat (codes "K"))
        (answer (report_error message w).answers) _ _ _ (notify-Closings s (report_error message w))
        (unheard-Closings s (codes "Failed to notify server.") (report_error message w))
        (nothing_closed s (report_error message w)) in
    next-Closings reporting (next-Closings telling (own-Closings s w.client.client_fd _ e))

-- No client gets the listening socket's descriptor.
abbrev pub IsApart : ℕ → Watched → Type 0
IsApart s (ready (connection (some fd) thrown) told) = fd ≢ s
IsApart s _ = Unit {0}

-- The calls of `accept` that fail.
abbrev pub failures : Watched → ℕ
failures (ready (connection none thrown) told) = 1
failures _ = 0

abbrev pub all_failures : List Watched → ℕ
all_failures [] = 0
all_failures (p ∷ ps) = failures p + all_failures ps

-- How far a part of the loop with `n` failures of `accept` gets.
abbrev pub Ends : ℕ → ℕ → World → Watch → Type 0
Ends s n w (watching l) = Closings s n w l.world
Ends s n w (returned l) = (k : ℕ) × Closings s (suc k) w l.world × (k ≤ n)

heed_socket-Ends :
    (s : ℕ) (incoming : Incoming) (told : FromServer) (l : Listener)
    → l.world.client.client_fd ≡ s
    → IsApart s (ready incoming told)
    → Ends s (failures (ready incoming told)) l.world (heed_socket incoming l)
unfolding heed_socket
heed_socket-Ends s nobody told l e h = nothing_closed s l.world
heed_socket-Ends s socket_error told l e h =
    (0, close_thread-Closings s (codes "Poll error on server socket.") l.world e, omega arith)
heed_socket-Ends s (connection none thrown) told l e h =
    close_thread-Closings s (codes "Failed to accept connection.") l.world e
heed_socket-Ends s (connection (some fd) none) told l e h = nothing_closed s l.world
heed_socket-Ends s (connection (some fd) (some what)) told l e h = (
  0,
  next-Closings (close_thread-Closings s what l.world e) (other-Closings s fd _ h),
  omega arith,
)

heed_server-Ends :
    (s : ℕ) (told : FromServer) (l : Listener)
    → l.world.client.client_fd ≡ s
    → Ends s 0 l.world (heed_server told l)
unfolding heed_server
heed_server-Ends s silent l e = nothing_closed s l.world
heed_server-Ends s pipe_closed l e =
    (0, close_thread-Closings s (codes "Server disconnected (pipe closed).") l.world e, omega arith)
heed_server-Ends s pipe_failed l e =
    (0, close_thread-Closings s (codes "Failed to read from server pipe.") l.world e, omega arith)
heed_server-Ends s pipe_error l e =
    (0, close_thread-Closings s (codes "Poll error on server pipe.") l.world e, omega arith)
heed_server-Ends s (order disconnected) l e =
    (0, own-Closings s l.world.client.client_fd l.world e, omega arith)
heed_server-Ends s (order end_signal) l e =
    (0, own-Closings s l.world.client.client_fd l.world e, omega arith)
heed_server-Ends s (order _) l e = (
  0,
  next-Closings (said s (codes "Server send invalid message.") l.world)
      (own-Closings s l.world.client.client_fd _ e),
  omega arith,
)

and_then-Ends :
    (s m n : ℕ) (w : World) (x : Watch) (f : Listener → Watch)
    → w.client.client_fd ≡ s
    → Ends s m w x
    → ((l : Listener) → l.world.client.client_fd ≡ s → Ends s n l.world (f l))
    → Ends s (m + n) w (and_then x f)
and_then-Ends s m n w (watching l) f e p q = join (f l) (q l (p.own ∙ e))
  where
    next : (k : ℕ) → m + suc k ≡ suc (m + k)
    next k = omega arith

    join : (y : Watch) → Ends s n l.world y → Ends s (m + n) w y
    join (watching o) r = next-Closings p r
    join (returned o) (k, r, b) =
        (m + k, subst (λ c. Closings s c w o.world) (next k) (next-Closings p r), omega arith)
and_then-Ends s m n w (returned l) f e (k, p, b) q = (k, p, omega arith)

watch_round-Ends :
    (s : ℕ) (polled : Watched) (l : Listener)
    → l.world.client.client_fd ≡ s
    → IsApart s polled
    → Ends s (failures polled) l.world (watch_round polled l)
unfolding watch_round
watch_round-Ends s poll_failed l e h =
    (0, close_thread-Closings s (codes "Failed to poll.") l.world e, omega arith)
watch_round-Ends s (ready incoming told) l e h =
    subst (λ n. Ends s n l.world (and_then (heed_socket incoming l) (heed_server told)))
      (omega arith)
      (and_then-Ends s (failures (ready incoming told)) 0 l.world (heed_socket incoming l)
        (heed_server told) e (heed_socket-Ends s incoming told l e h) (heed_server-Ends s told))

watch-Ends :
    (s : ℕ) (polls : List Watched) (l : Listener)
    → l.world.client.client_fd ≡ s
    → All (IsApart s) polls
    → Ends s (all_failures polls) l.world (watch polls l)
unfolding watch
watch-Ends s [] l e h = nothing_closed s l.world
watch-Ends s (polled ∷ rest) l e h =
    and_then-Ends s (failures polled) (all_failures rest) l.world (watch_round polled l)
      (watch rest) e (watch_round-Ends s polled l e h.0) (λ m d. watch-Ends s rest m d h.1)

-- Whatever `poll`, `accept`, the pipe and the creation of threads do, a connection thread that has
-- returned has closed its socket: once, or once more for some calls of `accept` that failed, after
-- which it goes on with the closed descriptor. While it runs it has closed it once for each of them,
-- so not at all if they succeed. No client gets the descriptor of the socket.
pub handle_connections-Ends :
    (s : ℕ) (polls : List Watched) (l : Listener)
    → All (IsApart s) polls
    → Ends s (all_failures polls) (listening s l).world (handle_connections (pos s) polls l)
unfolding handle_connections
handle_connections-Ends s polls l h = watch-Ends s polls (listening s l) refl h
