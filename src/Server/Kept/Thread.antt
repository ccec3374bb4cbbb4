-- ===== src/Server/Kept/Thread.antt =====
-- A client's thread from its first message to its end (`handle_client`).
use kierki_sik.Prelude.{
  ℕ, refl, List, [], ◌∷◌, Bool, true, false, Bytes, codes, same, if◌then◌else◌, ◌==◌, get_or,
  length, substr, ◌+◌,
}
use mathlib.Core.List.Perm
use kierki_sik.Regex.{Boost, iam_check}
use kierki_sik.Messages.{taken_message}
use kierki_sik.Server.{World, Flow, going, ended, crashed, send}
use kierki_sik.Server.Poll.{Polled, client_poll, handle_client}
use kierki_sik.Server.Reserve
use kierki_sik.Server.Reserve.{
  Hello, Reserved, refused, busy, seated, send_taken_tricks, send_turn, send_history, take_seat,
  join, turn_away, ask_seat, reserve_spot, occupied_seats, is_free,
}
use kierki_sik.Server.Kept.{
  keeps, going-Keeps, from-Keeps, Kept, refl-Kept, Keeps, bind-Keeps, if-Keeps, last_world,
}
use kierki_sik.Server.Kept.Rounds.{client_poll-Keeps}
use kierki_sik.Server.Kept.Steps.{close_thread-Kept, send-Keeps, report-Kept}

send_taken_tricks-Keeps :
    (i : ℕ) (tricks : List (List Bytes)) (takers : List Bytes) (w : World)
    → Keeps w.server (send_taken_tricks i tricks takers w)
unfolding send_taken_tricks
send_taken_tricks-Keeps i [] takers w = going-Keeps w
send_taken_tricks-Keeps i (trick ∷ tricks) [] w = keeps w.server (crashed w) (refl-Kept w.server)
send_taken_tricks-Keeps i (trick ∷ tricks) (taker ∷ takers) w =
    bind-Keeps w.server (send false (taken_message i trick taker) w)
      (send_taken_tricks (i + 1) tricks takers) (send-Keeps false (taken_message i trick taker) w)
      (send_taken_tricks-Keeps (i + 1) tricks takers)

send_turn-Keeps : (seat : Bytes) (w : World) → Keeps w.server (send_turn seat w)
unfolding send_turn
send_turn-Keeps seat w =
    if-Keeps w.server (same w.server.player_turn seat) _ _ (send-Keeps false _ _) (going-Keeps _)

send_history-Keeps : (seat : Bytes) (w : World) → Keeps w.server (send_history seat w)
unfolding send_history
send_history-Keeps seat w =
    if-Keeps w.server (length (get_or w.server.deal 0 []) == 0) _ _ (going-Keeps _) (
      bind-Keeps w.server _ (send_turn seat)
        (bind-Keeps w.server _ (send_taken_tricks 1 w.server.taken_tricks w.server.taken_takers)
          (send-Keeps false _ w)
          (send_taken_tricks-Keeps 1 w.server.taken_tricks w.server.taken_takers))
        (send_turn-Keeps seat))

-- The world that a reservation ends in.
abbrev reserved_world : Reserved → World
reserved_world (refused w) = w
reserved_world (busy w) = w
reserved_world (seated b w) = w

join-Kept :
    (w : World) (f : Flow) → Keeps w.server f → Kept w.server (reserved_world (join f)).server
unfolding Keeps
join-Kept w (going w') kept = kept
join-Kept w (ended w') kept = kept
join-Kept w (crashed w') kept = kept

turn_away-Kept :
    (w : World) (f : Flow) → Keeps w.server f → Kept w.server (reserved_world (turn_away f)).server
unfolding Keeps
turn_away-Kept w (going w') kept = kept
turn_away-Kept w (ended w') kept = kept
turn_away-Kept w (crashed w') kept = kept

if-Kept :
    (w : World) (b : Bool) (x y : Reserved)
    → Kept w.server (reserved_world x).server
    → Kept w.server (reserved_world y).server
    → Kept w.server (reserved_world (if b then x else y)).server
if-Kept w true x y hx hy = hx
if-Kept w false x y hx hy = hy

reserve_spot-Kept :
    (boost : Boost) (hello : Hello) (w : World)
    → Kept w.server (reserved_world (reserve_spot boost hello w)).server
unfolding reserve_spot ask_seat take_seat
reserve_spot-Kept boost Reserve.left w =
    close_thread-Kept (codes "Client disconnected.") false false w
reserve_spot-Kept boost Reserve.failed w =
    close_thread-Kept (codes "Failed to read from client.") false false w
reserve_spot-Kept boost (Reserve.message m) w =
    if-Kept w (iam_check boost m) _ _
      (if-Kept w (is_free (substr m 3 1) w.server) _ _
        (join-Kept w _ (
          from-Keeps w.server (take_seat (substr m 3 1) w).server _ (Perm.rfl, refl)
            (send_history-Keeps (substr m 3 1) (take_seat (substr m 3 1) w))))
        (turn_away-Kept w _ (send-Keeps false _ _)))
      (report-Kept (codes "Client send invalid message.") w)

polled-Keeps :
    (boost : Boost) (polls : List Polled) (w : World) (r : Reserved)
    → Kept w.server (reserved_world r).server
    → Keeps w.server (elim r [
      | refused w' ↦ ended w'
      | busy w' ↦ ended w'
      | seated b_is_barrier w' ↦
          client_poll boost polls
            (record w' { client = record (w'.client) { timeout_copy = w'.server.timeout } })
    ])
unfolding Keeps
polled-Keeps boost polls w (refused w') kept = kept
polled-Keeps boost polls w (busy w') kept = kept
polled-Keeps boost polls w (seated b w') kept =
    from-Keeps w.server w'.server
      (client_poll boost polls
        (record w' { client = record (w'.client) { timeout_copy = w'.server.timeout } }))
      kept
      (client_poll-Keeps boost polls
        (record w' { client = record (w'.client) { timeout_copy = w'.server.timeout } }))

-- A client's thread, from its first message to its end and whatever the client, the main thread and
-- the kernel do, makes and loses no card: those in the hands and on the table are at each end a
-- permutation of those at the start. It leaves the scores, the totals, the tricks taken, the deal, its
-- type and the trick's number as they are.
pub handle_client-Kept :
    (boost : Boost) (hello : Hello) (polls : List Polled) (w : World)
    → Kept w.server (last_world (handle_client boost hello polls w)).server
unfolding handle_client Keeps
handle_client-Kept boost hello polls w =
    polled-Keeps boost polls w (reserve_spot boost hello w) (reserve_spot-Kept boost hello w)
