-- ===== src/Server/Kept/Steps.antt =====
-- Closing, writing and playing: what each of these steps of a client's thread keeps.
use kierki_sik.Prelude.{
  ℕ, ◌≡◌, refl, [], ◌∷◌, Bool, true, false, ◌&&◌, Bytes, codes, if◌then◌else◌, inl, inr,
  Option-cases, ◌++◌, ◌==◌,
}
use mathlib.Core.List.Perm
use kierki_sik.Regex.{Boost, trick_client_check}
use kierki_sik.Messages.{wrong_message}
use kierki_sik.Server.{
  card_play, notify, sent, Serwer, Signal, World, Flow, ended, crashed, leave, close_thread, send,
  signal, answer, report_error, with_server, seat_index, later,
}
use kierki_sik.Server.Play.{
  accept_card, judge_card, play_in_turn, parse_message, has_card, hand_of, refuse_card, right_color,
  split_play, restart_timeout,
}
use kierki_sik.Server.Kept.{
  keeps, going-Keeps, from-Keeps, Kept, refl-Kept, trans-Kept, Keeps, bind-Keeps, if-Keeps,
}
use kierki_sik.Server.Kept.Cards.{give_up, put_down-Perm}

leave-Kept : (seat : Bytes) (by_server : Bool) (s : Serwer) → Kept s (leave seat by_server s)
unfolding leave
leave-Kept seat true s = (Perm.rfl, refl)
leave-Kept seat false s = (Perm.rfl, refl)

pub report-Kept : (message : Bytes) (w : World) → Kept w.server (report_error message w).server
report-Kept [] w = refl-Kept w.server
report-Kept (c ∷ message) w = refl-Kept w.server

chosen-Kept :
    (s : Serwer) (c a : Bool) (x y z : World)
    → Kept s x.server
    → Kept s y.server
    → Kept s z.server
    → Kept s (if c then if a then x else y else z).server
chosen-Kept s true true x y z hx hy hz = hx
chosen-Kept s true false x y z hx hy hz = hy
chosen-Kept s false a x y z hx hy hz = hz

gave_up-Kept :
    (s : Serwer) (occupying by_server : Bool) (seat : Bytes) (w : World)
    → Kept s w.server
    → Kept s (if occupying then with_server (leave seat by_server w.server) w else w).server
gave_up-Kept s true by_server seat w h =
    trans-Kept s w.server (leave seat by_server w.server) h (leave-Kept seat by_server w.server)
gave_up-Kept s false by_server seat w h = h

pub close_thread-Kept :
    (message : Bytes) (occupying by_server : Bool) (w : World)
    → Kept w.server (close_thread message occupying by_server w).server
unfolding close_thread
close_thread-Kept message occupying by_server w = chosen-Kept w.server _ _ _ _ _ kept kept kept
  where
    kept :
        Kept w.server
          (if occupying
            then with_server
                (leave w.client.seat by_server (report_error message w).server)
                (report_error message w)
            else report_error message w).server
    kept =
        gave_up-Kept w.server occupying by_server w.client.seat (report_error message w)
          (report-Kept message w)

pub close-Keeps :
    (message : Bytes) (occupying by_server : Bool) (w : World)
    → Keeps w.server (ended (close_thread message occupying by_server w))
close-Keeps message occupying by_server w =
    keeps w.server (ended (close_thread message occupying by_server w))
      (close_thread-Kept message occupying by_server w)

pub send-Keeps :
    (occupying : Bool) (msg : Bytes) (w : World) → Keeps w.server (send occupying msg w)
unfolding send
send-Keeps occupying msg w =
    if-Keeps w.server (answer w.answers) _ _
      (going-Keeps (record w {
        events = w.events ++ sent w.client.client_fd msg ∷ [];
        answers = later w.answers;
      }))
      (close-Keeps (codes "Failed to send message to the client.") occupying false
        (record w { answers = later w.answers }))

pub signal-Keeps : (m : Signal) (w : World) → Keeps w.server (signal m w)
unfolding signal
signal-Keeps m w = if-Keeps w.server (answer w.answers) _ _ (going-Keeps (notify m w)) (
    close-Keeps (codes "Failed to notify server.") true false
      (record w { answers = later w.answers }))

-- The card on the table, before the server is told.
abbrev put_down : Bytes → World → World
put_down card w =
    with_server
      (record (w.server) {
        cards = give_up card (seat_index w.client.seat) w.server.cards;
        cards_on_table = w.server.cards_on_table ++ card ∷ [];
        player_turn = codes "x";
      })
      w

accept_card-Keeps :
    (card : Bytes) (w : World)
    → has_card card (hand_of w) ≡ true
    → Keeps w.server (accept_card card w)
unfolding accept_card
accept_card-Keeps card w has =
    bind-Keeps w.server (signal card_play (put_down card w)) _
      (from-Keeps w.server (put_down card w).server _
        (
          put_down-Perm card (seat_index w.client.seat) w.server.cards_on_table w.server.cards has,
          refl,
        )
        (signal-Keeps card_play (put_down card w)))
      (λ w'.
        going-Keeps (record w' { client = record (w'.client) { b_was_destined_to_play = false } }))

either-Keeps :
    (s : Serwer) (h r : Bool) (f g : Flow)
    → (h ≡ true → Keeps s f)
    → Keeps s g
    → Keeps s (if h && r then f else g)
either-Keeps s true true f g kf kg = kf refl
either-Keeps s true false f g kf kg = kg
either-Keeps s false r f g kf kg = kg

judge_card-Keeps :
    (current extracted : ℕ) (card : Bytes) (w : World)
    → Keeps w.server (judge_card current extracted card w)
unfolding judge_card refuse_card
judge_card-Keeps current extracted card w =
    either-Keeps w.server (has_card card (hand_of w))
      (right_color w.server.cards_on_table (hand_of w) (extracted == current) card)
      (accept_card card w) (refuse_card current w) (accept_card-Keeps card w)
      (send-Keeps true (wrong_message current) w)

play_in_turn-Keeps :
    (message : Bytes) (current : ℕ) (w : World) → Keeps w.server (play_in_turn message current w)
unfolding play_in_turn
play_in_turn-Keeps message current w = elim (Option-cases (split_play current message)) [
  | inl e ↦ rw (e, play_in_turn) (keeps w.server (crashed w) (refl-Kept w.server))
  | inr (p, e) ↦ rw (e, play_in_turn) (judge_card-Keeps current p.0 p.1 w)
]

pub parse_message-Keeps :
    (boost : Boost) (message : Bytes) (current : ℕ) (w : World)
    → Keeps w.server (parse_message boost message current w)
unfolding parse_message
parse_message-Keeps boost message current w =
    if-Keeps w.server (trick_client_check boost message) _ _
      (if-Keeps w.server w.client.b_was_destined_to_play _ _
        (play_in_turn-Keeps message current (restart_timeout w))
        (send-Keeps true (wrong_message current) w))
      (close-Keeps (codes "Client send invalid message.") true false w)
