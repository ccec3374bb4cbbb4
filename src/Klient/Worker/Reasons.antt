-- ===== src/Klient/Worker/Reasons.antt =====
-- How the client's worker gets on, and why and how it ends: what is said of each.
use kierki_sik.Prelude.{
  ◌≡◌, ◌∙◌, List, [], ◌∷◌, ◌++◌, append_assoc, Bool, Bytes, All, All-append, subst, true, false,
  ◌&&◌, ap,
}
use kierki_sik.Regex.{Boost}
use kierki_sik.Klient.{
  Klient, Ending, Event, normal_end, disconnected, server_disconnect, finished, receive, send_card,
}
use kierki_sik.Klient.Worker.{
  Deed, shows, sends, closes_socket, Worker, Turn, working, returned, and_then, parting, FromMain,
  quiet, pipe_closed, pipe_failed, pipe_error, order_disconnected, order_other, order_card_play,
  FromServer, silent, left, failed, socket_error, message, Polled, poll_failed, ready,
}

-- Work that ends nothing: a text for the player or a message for the server.
abbrev pub IsWork : Deed → Type 0
IsWork (shows text) = Unit {0}
IsWork (sends text) = Unit {0}
IsWork _ = ⊥

-- An order of the main thread, or its absence, that ends nothing.
abbrev pub IsCalmMain : FromMain → Type 0
IsCalmMain quiet = Unit {0}
IsCalmMain (order_card_play written) = Unit {0}
IsCalmMain _ = ⊥

abbrev pub IsCalmServer : FromServer → Type 0
IsCalmServer silent = Unit {0}
IsCalmServer (message written m) = Unit {0}
IsCalmServer _ = ⊥

-- A poll that ends nothing by itself.
abbrev pub IsCalm : Polled → Type 0
IsCalm poll_failed = ⊥
IsCalm (ready m s) = IsCalmMain m × IsCalmServer s

-- The first of the events that ends the worker has this ending.
abbrev pub EndsWith : Ending → List Event → Type 0
EndsWith ending [] = ⊥
EndsWith ending (finished e ∷ events) = e ≡ ending
EndsWith ending (_ ∷ events) = EndsWith ending events

-- Why the worker, whose state is `k` at the end, ends and tells the main thread how: a failure is
-- DISCONNECTED; the end of the connection is the normal end if the scores and the totals have come,
-- and else SERVER_DISCONNECT; a card or a message ends it as `send_card` or `receive` says.
pub data Reason (boost : Boost) (k : Klient) : Polled → Ending → Type 0 where
  no_poll : Reason boost k poll_failed disconnected
  main_closed : (s : FromServer) → Reason boost k (ready pipe_closed s) disconnected
  main_failed : (s : FromServer) → Reason boost k (ready pipe_failed s) disconnected
  main_error : (s : FromServer) → Reason boost k (ready pipe_error s) disconnected
  strange_order : (s : FromServer) → Reason boost k (ready order_other s) disconnected
  card :
      (written : Bool) (s : FromServer) (before : Klient) (ending : Ending)
      → k ≡ (send_card written before).0
      → EndsWith ending (send_card written before).1
      → Reason boost k (ready (order_card_play written) s) ending
  read_failed : (m : FromMain) → IsCalmMain m → Reason boost k (ready m failed) disconnected
  server_error : (m : FromMain) → IsCalmMain m → Reason boost k (ready m socket_error) disconnected
  normal :
      (m : FromMain)
      → IsCalmMain m
      → k.got_score ≡ true
      → k.got_total ≡ true
      → Reason boost k (ready m left) normal_end
  early :
      (m : FromMain)
      → IsCalmMain m
      → (k.got_score && k.got_total) ≡ false
      → Reason boost k (ready m left) server_disconnect
  reply :
      (m : FromMain) (written : Bool) (text : Bytes) (before : Klient) (ending : Ending)
      → IsCalmMain m
      → k ≡ (receive boost written text before).0
      → EndsWith ending (receive boost written text before).1
      → Reason boost k (ready m (message written text)) ending

-- What the worker does last: at the order of the main thread it only closes the socket; for any other
-- reason it writes the byte for the main thread, or reports that it cannot, and closes the socket.
pub data IsParting (boost : Boost) (b_heard : Bool) (k : Klient) : Polled → List Deed → Type 0 where
  obeying :
      (s : FromServer) → IsParting boost b_heard k (ready order_disconnected s) (closes_socket ∷ [])
  telling :
      (polled : Polled) (ending : Ending) (error_message : Bytes)
      → Reason boost k polled ending
      → IsParting boost b_heard k polled (parting b_heard error_message ending)

-- How far the worker gets from `w`: `Calm` says what is true if it goes on, and `Last` how it ends.
abbrev pub Proceeds : Type 0 → (Bool → Klient → List Deed → Type 0) → Worker → Turn → Type 0
Proceeds Calm Last w (working v) =
    (done : List Deed) × (v.log ≡ w.log ++ done) × All IsWork done × (v.b_heard ≡ w.b_heard) × Calm
Proceeds Calm Last w (returned v) =
    (done : List Deed) × (last : List Deed) × (v.log ≡ (w.log ++ done) ++ last)
    × All IsWork done
    × Last w.b_heard v.klient last

-- The polls before one are calm, and that one ends the worker.
abbrev pub Ended : Boost → List Polled → Bool → Klient → List Deed → Type 0
Ended boost polls b_heard k last =
    (earlier : List Polled) × (polled : Polled) × (later : List Polled) × (polls
      ≡ earlier ++ polled ∷ later)
    × All IsCalm earlier
    × IsParting boost b_heard k polled last

-- How far the worker gets from `w` with these polls.
abbrev pub Works : Boost → List Polled → Worker → Turn → Type 0
Works boost polls w turn = Proceeds (All IsCalm polls) (Ended boost polls) w turn

-- Behind some work.
pub behind :
    (D : Type 0) (Q : Bool → Klient → List Deed → Type 0) (w v : Worker) (done : List Deed)
    (y : Turn)
    → v.log ≡ w.log ++ done
    → All IsWork done
    → v.b_heard ≡ w.b_heard
    → Proceeds D Q v y
    → Proceeds D Q w y
behind D Q w v done (working u) e h d (later, e', h', d', c') = (
  done ++ later,
  e' ∙ ap (λ l. l ++ later) e ∙ append_assoc w.log done later,
  All-append IsWork done later h h',
  d' ∙ d,
  c',
)
behind D Q w v done (returned u) e h d (later, last, e', h', p) = (
  done ++ later,
  last,
  e' ∙ ap (λ l. (l ++ later) ++ last) e ∙ ap (λ l. l ++ last) (append_assoc w.log done later),
  All-append IsWork done later h h',
  subst (λ b. Q b u.klient last) d p,
)

pub and_then-Proceeds :
    (C D : Type 0) (P Q : Bool → Klient → List Deed → Type 0) (w : Worker) (x : Turn)
    (f : Worker → Turn)
    → Proceeds C P w x
    → ((b : Bool) (k : Klient) (last : List Deed) → P b k last → Q b k last)
    → ((v : Worker) → C → Proceeds D Q v (f v))
    → Proceeds D Q w (and_then x f)
and_then-Proceeds C D P Q w (working v) f (done, e, h, d, c) lift more =
    behind D Q w v done (f v) e h d (more v c)
and_then-Proceeds C D P Q w (returned v) f (done, last, e, h, p) lift more =
    (done, last, e, h, lift w.b_heard v.klient last p)

pub map-Proceeds :
    (C D : Type 0) (P Q : Bool → Klient → List Deed → Type 0) (w : Worker) (x : Turn)
    → Proceeds C P w x
    → (C → D)
    → ((b : Bool) (k : Klient) (last : List Deed) → P b k last → Q b k last)
    → Proceeds D Q w x
map-Proceeds C D P Q w (working v) (done, e, h, d, c) f g = (done, e, h, d, f c)
map-Proceeds C D P Q w (returned v) (done, last, e, h, p) f g =
    (done, last, e, h, g w.b_heard v.klient last p)
