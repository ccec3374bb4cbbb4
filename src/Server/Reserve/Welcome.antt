-- ===== src/Server/Reserve/Welcome.antt =====
-- What `reserve_spot` tells a client that joins while a deal is under way.
use kierki_sik.Prelude.{
  ℕ, ◌+◌, ◌≡◌, ◌≢◌, inl, inr, refl, ap, sym, ◌∙◌, List, [], ◌∷◌, ◌++◌, append_assoc, append-nil,
  map, Bool, true, false, some, Bytes, same, if◌then◌else◌, get_or, length, arith, ne→==,
  Bool-cases, ◌≤◌,
}
use mathlib.Core.List.{map-append}
use kierki_sik.StdMap.{assign}
use kierki_sik.Messages.{deal_message, taken_message, trick_message}
use kierki_sik.Server.{Serwer, World, going, ◌>>=◌, seat_index, send, sent}
use kierki_sik.Server.Reserve.{
  seated, is_free, send_taken_tricks, send_turn, send_history, take_seat, join, ask_seat,
}

-- The messages that a new client is sent when a deal is under way, in order.
abbrev pub taken_texts : ℕ → List (List Bytes) → List Bytes → List Bytes
taken_texts i [] takers = []
taken_texts i (trick ∷ tricks) [] = []
taken_texts i (trick ∷ tricks) (taker ∷ takers) =
    taken_message i trick taker ∷ taken_texts (i + 1) tricks takers

abbrev pub turn_texts : Bytes → Serwer → List Bytes
turn_texts seat s =
    if same s.player_turn seat then trick_message s.trick_number s.cards_on_table ∷ [] else []

abbrev pub welcome_texts : Bytes → Serwer → List Bytes
welcome_texts seat s =
    deal_message s.trick_type_global s.deal_starter (get_or s.deal (seat_index seat) [])
    ∷ (taken_texts 1 s.taken_tricks s.taken_takers ++ turn_texts seat s)

-- So many complete writes, and what the kernel answers afterwards.
abbrev pub all_written : List Bytes → List Bool → List Bool
all_written [] rest = rest
all_written (m ∷ ms) rest = true ∷ all_written ms rest

-- The client after the texts went out.
abbrev pub wrote : List Bytes → List Bool → World → World
wrote texts rest w = record w {
  events = w.events ++ map (sent w.client.client_fd) texts;
  answers = rest;
}

send_written :
    (m : Bytes) (rest : List Bool) (w : World)
    → w.answers ≡ true ∷ rest
    → send false m w ≡ going (wrote (m ∷ []) rest w)
unfolding send
send_written m rest w e = rw e

taken_written :
    (i : ℕ) (tricks : List (List Bytes)) (takers : List Bytes) (rest : List Bool) (w : World)
    → length tricks ≤ length takers
    → w.answers ≡ all_written (taken_texts i tricks takers) rest
    → send_taken_tricks i tricks takers w ≡ going (wrote (taken_texts i tricks takers) rest w)
unfolding send_taken_tricks
taken_written i [] takers rest w l e = rw (append-nil w.events, sym e)
taken_written i (trick ∷ tricks) [] rest w l e = absurd (omega arith)
taken_written i (trick ∷ tricks) (taker ∷ takers) rest w l e =
    let m = taken_message i trick taker in
    let left = all_written (taken_texts (i + 1) tricks takers) rest in
    ap (λ f. f >>= send_taken_tricks (i + 1) tricks takers) (send_written m left w e)
    ∙ taken_written (i + 1) tricks takers rest (wrote (m ∷ []) left w) (omega arith) refl
    ∙ ap (λ ev. going (record w { events = ev; answers = rest })) (append_assoc w.events _ _)

-- The client whose turn it is will be waited for.
abbrev pub in_turn : Bytes → World → World
in_turn seat w = record w {
  client = record (w.client) {
    b_was_destined_to_play =
        if same w.server.player_turn seat then true else w.client.b_was_destined_to_play;
  };
}

turn_written :
    (seat : Bytes) (rest : List Bool) (w : World)
    → w.answers ≡ all_written (turn_texts seat w.server) rest
    → send_turn seat w ≡ going (wrote (turn_texts seat w.server) rest (in_turn seat w))
unfolding send_turn send
turn_written seat rest w e = elim (Bool-cases (same w.server.player_turn seat)) [
  | inl t ↦ rw (t, e, t)
  | inr f ↦
      rw (f, append-nil w.events)
        (ap (λ a. going (record w { answers = a }))
          (e
            ∙ ap
                (λ b.
                  all_written
                    (if b
                      then trick_message w.server.trick_number w.server.cards_on_table ∷ []
                      else [])
                    rest)
                f))
]

all_written-append :
    (xs ys : List Bytes) (rest : List Bool)
    → all_written (xs ++ ys) rest ≡ all_written xs (all_written ys rest)
all_written-append [] ys rest = refl
all_written-append (x ∷ xs) ys rest = ap (λ l. true ∷ l) (all_written-append xs ys rest)

history_written :
    (seat : Bytes) (rest : List Bool) (w : World)
    → length (get_or w.server.deal 0 []) ≢ 0
    → length w.server.taken_tricks ≤ length w.server.taken_takers
    → w.answers ≡ all_written (welcome_texts seat w.server) rest
    → send_history seat w ≡ going (wrote (welcome_texts seat w.server) rest (in_turn seat w))
unfolding send_history
history_written seat rest w dealt enough e =
    let s = w.server in
    let m = deal_message s.trick_type_global s.deal_starter (get_or s.deal (seat_index seat) []) in
    let ts = taken_texts 1 s.taken_tricks s.taken_takers in
    let us = turn_texts seat s in
    rw (ne→== (length (get_or s.deal 0 [])) 0 dealt) (
      ap (λ f. f >>= send_taken_tricks 1 s.taken_tricks s.taken_takers >>= send_turn seat)
        (send_written m (all_written (ts ++ us) rest) w e)
      ∙ ap (λ f. f >>= send_turn seat)
          (taken_written 1 s.taken_tricks s.taken_takers (all_written us rest)
            (wrote (m ∷ []) (all_written (ts ++ us) rest) w) enough (all_written-append ts us rest))
      ∙ turn_written seat rest
          (wrote ts (all_written us rest) (wrote (m ∷ []) (all_written (ts ++ us) rest) w)) refl
      ∙ ap (λ ev. going (record (in_turn seat w) { events = ev; answers = rest }))
          (rw (
            append_assoc (w.events ++ _),
            append_assoc w.events,
            map-append (sent w.client.client_fd) ts us,
          )))

flag : (s b : Bool) → b ≡ false → (if s then true else b) ≡ s
flag s b e = ground arith

-- A client that asks for a free seat while a deal is under way gets the seat, and is sent the
-- deal, the tricks taken so far and, if it is its turn, the request for a card, in this order,
-- when the writes succeed and each trick has a taker. It is waited for just if it is its turn,
-- and it is told of a barrier.
pub ask_seat_welcome :
    (seat : Bytes) (rest : List Bool) (w : World)
    → is_free seat w.server ≡ true
    → length (get_or w.server.deal 0 []) ≢ 0
    → length w.server.taken_tricks ≤ length w.server.taken_takers
    → w.client.b_was_destined_to_play ≡ false
    → w.answers ≡ all_written (welcome_texts seat w.server) rest
    → ask_seat seat w
      ≡ seated w.server.b_is_barrier_ongoing (record w {
        server = record (w.server) {
          seats_status = assign seat (some w.client.client_fd) w.server.seats_status;
        };
        client = record (w.client) {
          seat = seat;
          b_was_destined_to_play = same w.server.player_turn seat;
          b_is_barrier = w.server.b_is_barrier_ongoing;
        };
        events = w.events ++ map (sent w.client.client_fd) (welcome_texts seat w.server);
        answers = rest;
      })
unfolding ask_seat take_seat
ask_seat_welcome seat rest w free dealt enough idle e = rw free (
    ap join (history_written seat rest (take_seat seat w) dealt enough e)
    ∙ ap
        (λ b. join (
          going (
            wrote (welcome_texts seat w.server) rest (record (take_seat seat w) {
              client = record (w.client) { seat = seat; b_was_destined_to_play = b };
            }))))
        (flag (same w.server.player_turn seat) w.client.b_was_destined_to_play idle))
