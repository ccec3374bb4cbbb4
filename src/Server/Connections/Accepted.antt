-- ===== src/Server/Connections/Accepted.antt =====
-- The threads that serve the clients.
use kierki_sik.Prelude.{
  ℕ, ◌+◌, ◌^◌, ◌%◌, ◌<◌, ◌≤◌, ◌≡◌, refl, sym, ap, ◌∙◌, List, [], ◌∷◌, ◌++◌, append-nil,
  append_assoc, none, some, length, length-append, arith, ne→==, All, subst,
}
use kierki_sik.Server.{disconnected, end_signal}
use kierki_sik.Server.Poll.{FromServer, silent, pipe_closed, pipe_failed, pipe_error, order}
use kierki_sik.Prelude.Int.{pos}
use kierki_sik.Server.Connections.{
  listening, Incoming, nobody, socket_error, connection, Watched, poll_failed, ready, Listener,
  Watch, watching, returned, and_then, put_thread, heed_socket, heed_server, watch_round, watch,
  handle_connections,
}

-- The threads of the clients with these descriptors, numbered from `n` on.
abbrev pub numbered : ℕ → List ℕ → List (ℕ × ℕ)
numbered n [] = []
numbered n (fd ∷ fds) = (n, fd) ∷ numbered (n + 1) fds

put_thread-numbered :
    (j n : ℕ) (fds : List ℕ) (fd : ℕ)
    → n ≡ j + length fds
    → put_thread n fd (numbered j fds) ≡ numbered j (fds ++ fd ∷ [])
unfolding put_thread
put_thread-numbered j n [] fd e = ap (λ k. (k, fd) ∷ []) (e ∙ omega arith)
put_thread-numbered j n (x ∷ fds) fd e =
    rw (ne→== j n (λ h. omega arith))
      (ap (λ l. (j, x) ∷ l) (put_thread-numbered (j + 1) n fds fd (omega arith)))

-- The client that a poll brings, if it is accepted and its thread can be created.
abbrev pub client_of : Incoming → List ℕ
client_of (connection (some fd) none) = fd ∷ []
client_of _ = []

abbrev pub clients_of : List Watched → List ℕ
clients_of [] = []
clients_of (poll_failed ∷ polls) = clients_of polls
clients_of (ready incoming s ∷ polls) = client_of incoming ++ clients_of polls

-- What the listening socket shows lets the thread go on, also after a failed `accept`.
abbrev pub GoesOn : Incoming → Type 0
GoesOn socket_error = ⊥
GoesOn (connection (some fd) (some what)) = ⊥
GoesOn _ = Unit {0}

abbrev pub IsSilent : FromServer → Type 0
IsSilent silent = Unit {0}
IsSilent _ = ⊥

-- A poll after which the connection thread goes on.
abbrev pub IsCalm : Watched → Type 0
IsCalm poll_failed = ⊥
IsCalm (ready incoming s) = GoesOn incoming × IsSilent s

-- There is one thread for each of these clients, and the next number is free.
pub record Has (fds : List ℕ) (l : Listener) : Type 0 where
  pub threads : l.client_threads ≡ numbered 0 fds
  pub next : l.thread_id ≡ length fds

same-Has : (fds fds' : List ℕ) (l : Listener) → fds ≡ fds' → Has fds l → Has fds' l
same-Has fds fds' l e h = subst (λ k. Has k l) e h

none_more :
    (fds : List ℕ) (l l' : Listener)
    → l'.client_threads ≡ l.client_threads
    → l'.thread_id ≡ l.thread_id
    → Has fds l
    → Has (fds ++ []) l'
none_more fds l l' e d h = record {
  threads = e ∙ h.threads ∙ ap (numbered 0) (sym (append-nil fds));
  next = d ∙ h.next ∙ ap length (sym (append-nil fds));
}

-- The thread goes on if `Calm`, and returns if not; `fds` are served then.
abbrev Leads : Type 0 → List ℕ → Watch → Type 0
Leads Calm fds (watching l) = Calm × Has fds l
Leads Calm fds (returned l) = (¬ Calm) × Has fds l

wraps : (n : ℕ) → n < 2 ^ 64 → n % 2 ^ 64 ≡ n
wraps n h = omega arith

heed_socket-Leads :
    (incoming : Incoming) (fds : List ℕ) (l : Listener)
    → length fds + 1 < 2 ^ 64
    → Has fds l
    → Leads (GoesOn incoming) (fds ++ client_of incoming) (heed_socket incoming l)
unfolding heed_socket
heed_socket-Leads nobody fds l b h = (tt, none_more fds l l refl refl h)
heed_socket-Leads socket_error fds l b h = ((λ x. x), none_more fds l _ refl refl h)
heed_socket-Leads (connection none thrown) fds l b h = (tt, none_more fds l _ refl refl h)
heed_socket-Leads (connection (some fd) (some what)) fds l b h =
    ((λ x. x), none_more fds l _ refl refl h)
heed_socket-Leads (connection (some fd) none) fds l b h =
    let t = h.threads in
    let n = h.next in
    (
      tt,
      record {
        threads =
            ap (put_thread l.thread_id fd) t
            ∙ put_thread-numbered 0 l.thread_id fds fd (n ∙ omega arith);
        next =
            ap (λ k. (k + 1) % 2 ^ 64) n
            ∙ wraps (length fds + 1) b
            ∙ sym (length-append fds (fd ∷ []));
      },
    )

heed_server-Leads :
    (s : FromServer) (fds : List ℕ) (l : Listener)
    → Has fds l
    → Leads (IsSilent s) fds (heed_server s l)
unfolding heed_server
heed_server-Leads silent fds l h = (tt, h)
heed_server-Leads pipe_closed fds l h = ((λ x. x), record { threads = h.threads; next = h.next })
heed_server-Leads pipe_failed fds l h = ((λ x. x), record { threads = h.threads; next = h.next })
heed_server-Leads pipe_error fds l h = ((λ x. x), record { threads = h.threads; next = h.next })
heed_server-Leads (order disconnected) fds l h =
    ((λ x. x), record { threads = h.threads; next = h.next })
heed_server-Leads (order end_signal) fds l h =
    ((λ x. x), record { threads = h.threads; next = h.next })
heed_server-Leads (order _) fds l h = ((λ x. x), record { threads = h.threads; next = h.next })

watch_round-Leads :
    (polled : Watched) (fds : List ℕ) (l : Listener)
    → length fds + 1 < 2 ^ 64
    → Has fds l
    → Leads (IsCalm polled) (fds ++ clients_of (polled ∷ [])) (watch_round polled l)
unfolding watch_round
watch_round-Leads poll_failed fds l b h = ((λ x. x), none_more fds l _ refl refl h)
watch_round-Leads (ready incoming s) fds l b h =
    go (heed_socket incoming l) (heed_socket-Leads incoming fds l b h)
  where
    served :
        (k : Listener)
        → Has (fds ++ client_of incoming) k
        → Has (fds ++ (client_of incoming ++ [])) k
    served k q = subst (λ c. Has (fds ++ c) k) (sym (append-nil (client_of incoming))) q

    last :
        (y : Watch)
        → GoesOn incoming
        → Leads (IsSilent s) (fds ++ client_of incoming) y
        → Leads (IsCalm (ready incoming s)) (fds ++ (client_of incoming ++ [])) y
    last (watching k) g (c, q) = ((g, c), served k q)
    last (returned k) g (c, q) = ((λ d. c d.1), served k q)

    go :
        (x : Watch)
        → Leads (GoesOn incoming) (fds ++ client_of incoming) x
        → Leads
            (IsCalm (ready incoming s))
            (fds ++ (client_of incoming ++ []))
            (and_then x (heed_server s))
    go (watching k) (g, q) =
        last (heed_server s k) g (heed_server-Leads s (fds ++ client_of incoming) k q)
    go (returned k) (g, q) = ((λ d. g d.0), served k q)

-- The thread goes on behind calm polls, or the first that is not calm ends it; there is a thread for
-- each of `fds` and of the clients up to then.
abbrev pub Serves : List Watched → List ℕ → Watch → Type 0
Serves polls fds (watching l) = All IsCalm polls × Has (fds ++ clients_of polls) l
Serves polls fds (returned l) =
    (earlier : List Watched) × (polled : Watched) × (later : List Watched) × (polls
      ≡ earlier ++ polled ∷ later)
    × All IsCalm earlier
    × (¬ IsCalm polled)
    × Has (fds ++ clients_of (earlier ++ polled ∷ [])) l

clients_of-append : (xs ys : List Watched) → clients_of (xs ++ ys) ≡ clients_of xs ++ clients_of ys
clients_of-append [] ys = refl
clients_of-append (poll_failed ∷ xs) ys = clients_of-append xs ys
clients_of-append (ready incoming s ∷ xs) ys =
    ap (λ l. client_of incoming ++ l) (clients_of-append xs ys)
    ∙ sym (append_assoc (client_of incoming) (clients_of xs) (clients_of ys))

regroup :
    (fds : List ℕ) (polled : Watched) (rest : List Watched)
    → (fds ++ clients_of (polled ∷ [])) ++ clients_of rest ≡ fds ++ clients_of (polled ∷ rest)
regroup fds polled rest =
    append_assoc fds (clients_of (polled ∷ [])) (clients_of rest)
    ∙ ap (λ l. fds ++ l) (sym (clients_of-append (polled ∷ []) rest))

one_at_most : (polled : Watched) → length (clients_of (polled ∷ [])) ≤ 1
one_at_most poll_failed = omega arith
one_at_most (ready (connection (some fd) none) s) = omega arith
one_at_most (ready (connection (some fd) (some what)) s) = omega arith
one_at_most (ready _ s) = omega arith

watch-Serves :
    (polls : List Watched) (fds : List ℕ) (l : Listener)
    → length fds + length polls < 2 ^ 64
    → Has fds l
    → Serves polls fds (watch polls l)
unfolding watch
watch-Serves [] fds l b h = (tt, none_more fds l l refl refl h)
watch-Serves (polled ∷ rest) fds l b h =
    go (watch_round polled l) (watch_round-Leads polled fds l (omega arith) h) (λ k q.
      watch-Serves rest (fds ++ clients_of (polled ∷ [])) k
        (omega (arith, length-append fds (clients_of (polled ∷ [])), one_at_most polled)) q)
  where
    behind :
        IsCalm polled
        → (y : Watch) → Serves rest (fds ++ clients_of (polled ∷ [])) y
        → Serves (polled ∷ rest) fds y
    behind c (watching k) (calm, q) = ((c, calm), subst (λ l. Has l k) (regroup fds polled rest) q)
    behind c (returned k) (earlier, decisive, later, e, calm, n, q) = (
      polled ∷ earlier,
      decisive,
      later,
      ap (λ l. polled ∷ l) e,
      (c, calm),
      n,
      subst (λ l. Has l k) (regroup fds polled (earlier ++ decisive ∷ [])) q,
    )

    go :
        (x : Watch)
        → Leads (IsCalm polled) (fds ++ clients_of (polled ∷ [])) x
        → ((k : Listener)
            → Has (fds ++ clients_of (polled ∷ [])) k
            → Serves rest (fds ++ clients_of (polled ∷ [])) (watch rest k))
        → Serves (polled ∷ rest) fds (and_then x (watch rest))
    go (watching k) (c, q) more = behind c (watch rest k) (more k q)
    go (returned k) (n, q) more = ([], polled, rest, refl, tt, n, q)

-- Whatever `poll`, `accept`, the constructors of the threads and the main thread's pipe do, the
-- connection thread goes on until the first poll that failed, showed an error of the socket, brought a
-- client whose thread could not be created, or found the main thread's pipe other than silent; a
-- failed `accept` does not end it. In either case there is one thread for each client that was
-- accepted and whose thread could be created, in the last poll too, numbered in order from 0, and none
-- besides. There are fewer than 2^64 polls, and no thread was started before.
pub handle_connections-accepted :
    (socket_fd : ℕ) (polls : List Watched) (l : Listener)
    → length polls < 2 ^ 64
    → l.thread_id ≡ 0
    → l.client_threads ≡ []
    → Serves polls [] (handle_connections (pos socket_fd) polls l)
unfolding handle_connections
handle_connections-accepted socket_fd polls l b first none_yet =
    watch-Serves polls [] (listening socket_fd l) (omega arith)
      (record { threads = none_yet; next = first })
