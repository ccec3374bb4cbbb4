-- ===== src/Server/Running.antt =====
-- serwer.cpp, `Serwer::run_deal`: the control flow of the server's main thread, with its writes to the
-- pipes, the loop that waits for a card and the calls of `close_server`; and `Serwer::barrier`. What the
-- kernel answers and what the clients' threads do meanwhile are arguments.
pub mod Answered
pub mod Complete
pub mod Game
pub mod Once
pub mod Outcomes
pub mod Reached
pub mod Settled
pub mod Sound
pub mod Waiting
use kierki_sik.Prelude.{
  ℕ, ◌+◌, ◌%◌, List, [], ◌∷◌, ◌++◌, Bool, true, false, Option, none, some, Bytes, codes,
  if◌then◌else◌, ◌==◌, ltb,
}
use kierki_sik.Prelude.Int.{ℤ}
use kierki_sik.Server.{
  Serwer, Signal, disconnected, card_play, barrier_response, barrier_end, taken, deal_signal,
  scores, answer, later, seat_index, no_scores,
}
use kierki_sik.Server.Deal.{begin_deal, begin_trick, give_turn, put_card, end_trick, end_deal}

-- A pipe after a poll: no event, a byte, a closed pipe, a failed read, an error event.
pub data Seen : Type 0 where
  nothing pipe_closed pipe_failed pipe_error : Seen
  byte : Signal → Seen

-- The rounds of a barrier: a failed poll is `none`; behind the others `occupied` is what the clients'
-- threads have counted.
abbrev pub Meeting : Type 0
Meeting = List (Option (List Seen × ℕ))

abbrev pub first_meeting : List Meeting → Meeting
first_meeting [] = []
first_meeting (rounds ∷ meetings) = rounds

abbrev pub later_meetings : List Meeting → List Meeting
later_meetings [] = []
later_meetings (rounds ∷ meetings) = meetings

-- The shared state, `b_received_card`, the scores of the deal, the messages of the calls of
-- `close_server`, the bytes written, the results of the writes and the barriers to come.
pub record Desk : Type 0 where
  pub server : Serwer
  pub b_received_card : Bool
  pub scores : List (Bytes × ℤ)
  pub closings : List Bytes
  pub told : List (ℕ × Signal)
  pub writes : List Bool
  pub barriers : List Meeting

-- The function goes on, returns -1, lets an exception escape, or waits for ever.
pub data Course : Type 0 where
  going returned thrown waiting : Desk → Course

infixl 5 ◌>>=◌
abbrev pub ◌>>=◌ : Course → (Desk → Course) → Course
going d >>= f = f d
returned d >>= f = returned d
thrown d >>= f = thrown d
waiting d >>= f = waiting d

abbrev pub closing : Bytes → Desk → Desk
closing error_message d = record d { closings = d.closings ++ error_message ∷ [] }

-- `write_to_pipe` with `assert_server_write_pipe` behind it.
unfoldable pub tell : Signal → ℕ → Desk → Course
tell m i d =
    let d' = record d { told = d.told ++ (i, m) ∷ []; writes = later d.writes } in
    if answer d.writes then going d' else returned (closing (codes "Failed to notify thread.") d')

unfoldable pub tell_all : Signal → Desk → Course
tell_all m d = tell m 0 d >>= tell m 1 >>= tell m 2 >>= tell m 3

-- A byte that `barrier` reads from pipe `i`: the next client of a player who left has to come, too.
unfoldable pub meet_byte : ℕ → Signal → Desk → Course
unfolding tell
meet_byte i barrier_response d = going d
meet_byte i disconnected d =
    if i == 4
    then returned (closing (codes "Connection thread failed.") d)
    else tell barrier_response i d
meet_byte i _ d = returned (closing (codes "Invalid message in barrier poll.") d)

unfoldable pub meet_pipe : ℕ → Seen → Desk → Course
unfolding meet_byte
meet_pipe i nothing d = going d
meet_pipe i (byte m) d = meet_byte i m d
meet_pipe i pipe_closed d = returned (closing (codes "Thread closed its pipes (illegal).") d)
meet_pipe i pipe_failed d = returned (closing (codes "Failed to read from server thread.") d)
meet_pipe i pipe_error d = returned (closing (codes "Poll error in barrier poll.") d)

unfoldable pub meet_pipes : ℕ → List Seen → Desk → Course
unfolding meet_pipe
meet_pipes i [] d = going d
meet_pipes i (seen ∷ pipes) d = meet_pipe i seen d >>= meet_pipes (i + 1) pipes

abbrev pub with_occupied : ℕ → Desk → Desk
with_occupied occupied d = record d { server = record (d.server) { occupied = occupied } }

abbrev pub with_ongoing : Bool → Desk → Desk
with_ongoing b d = record d { server = record (d.server) { b_is_barrier_ongoing = b } }

-- `while (waiting > 0)`.
unfoldable pub meet : Meeting → Desk → Course
unfolding meet_pipes
meet [] d = waiting d
meet (none ∷ rounds) d = returned (closing (codes "Failed to poll while waiting for clients.") d)
meet (some (pipes, occupied) ∷ rounds) d = meet_pipes 0 pipes d >>= (λ e.
    if ltb occupied 4
    then meet rounds (with_occupied occupied e)
    else going (
        if occupied == 4
        then with_ongoing false (with_occupied occupied e)
        else with_occupied occupied e))

unfoldable pub barrier : Desk → Course
unfolding tell_all meet
barrier d =
    tell_all barrier_response
      (with_ongoing true (with_occupied 0 (record d { barriers = later_meetings d.barriers })))
    >>= meet (first_meeting d.barriers)
    >>= tell_all barrier_end

abbrev pub invalid_message : Desk → Course
invalid_message d =
    returned (closing (codes "Invalid message in main game server poll from client thread.") d)

-- The byte of pipe `j`. The player's thread has put the card on the table before it writes.
unfoldable pub hear_byte : ℕ → Bytes → ℕ → Signal → Desk → Course
unfolding barrier
hear_byte expected card j card_play d =
    if j == expected
    then going (record d { server = put_card card d.server; b_received_card = true })
    else invalid_message d
hear_byte expected card j disconnected d =
    if j == 4 then going (closing (codes "Connection thread failed.") d) else barrier d
hear_byte expected card j _ d = invalid_message d

-- A pipe after a poll. `assert_server_read_pipe` returns 0 for a closed pipe, which is not taken for an
-- error.
unfoldable pub hear_pipe : ℕ → Bytes → ℕ → Seen → Desk → Course
unfolding hear_byte
hear_pipe expected card j nothing d = going d
hear_pipe expected card j (byte m) d = hear_byte expected card j m d
hear_pipe expected card j pipe_closed d =
    invalid_message (closing (codes "Thread closed its pipes (illegal).") d)
hear_pipe expected card j pipe_failed d =
    returned (closing (codes "Failed to read from server thread.") d)
hear_pipe expected card j pipe_error d =
    returned (closing (codes "Poll error in main game server poll.") d)

unfoldable pub hear_pipes : ℕ → Bytes → ℕ → List Seen → Desk → Course
unfolding hear_pipe
hear_pipes expected card j [] d = going d
hear_pipes expected card j (seen ∷ pipes) d =
    hear_pipe expected card j seen d >>= hear_pipes expected card (j + 1) pipes

-- `while (!b_received_card)`: a poll that fails is `none`.
unfoldable pub wait_for_card : ℕ → Bytes → List (Option (List Seen)) → Desk → Course
unfolding hear_pipes
wait_for_card expected card [] d = if d.b_received_card then going d else waiting d
wait_for_card expected card (none ∷ polls) d =
    if d.b_received_card
    then going d
    else returned (closing (codes "Failed to poll while waiting for a card.") d)
wait_for_card expected card (some pipes ∷ polls) d =
    if d.b_received_card
    then going d
    else hear_pipes expected card 0 pipes d >>= wait_for_card expected card polls

-- A player's turn: what the polls show, and the card that the player's thread puts on the table.
abbrev pub Turn : Type 0
Turn = List (Option (List Seen)) × Bytes

unfoldable pub run_turn : ℕ → ℕ → Turn → Desk → Course
unfolding tell wait_for_card
run_turn beginning i (polls, card) d =
    tell card_play ((beginning + i) % 4)
      (record d { server = give_turn beginning i d.server; b_received_card = false })
    >>= wait_for_card ((beginning + i) % 4) card polls

unfoldable pub run_turns : ℕ → ℕ → List Turn → Desk → Course
unfolding run_turn
run_turns beginning i [] d = going d
run_turns beginning i (turn ∷ turns) d =
    run_turn beginning i turn d >>= run_turns beginning (i + 1) turns

-- "Got four cards".
unfoldable pub score_trick : ℕ → ℕ → ℕ → Desk → Course
score_trick beginning trick_type number d =
    elim (end_trick beginning trick_type number (d.scores, d.server)) [
      | none ↦ thrown d
      | some (points, s) ↦ going (record d { server = s; scores = points })
    ]

-- A round of the loop over the tricks.
unfoldable pub run_trick : ℕ → ℕ → List Turn → Desk → Course
unfolding run_turns score_trick tell_all barrier
run_trick trick_type number turns d =
    run_turns (seat_index d.server.last_taker) 0 turns (record d { server = begin_trick d.server })
    >>= score_trick (seat_index d.server.last_taker) trick_type number
    >>= tell_all taken
    >>= barrier

unfoldable pub run_tricks : ℕ → ℕ → List (List Turn) → Desk → Course
unfolding run_trick
run_tricks trick_type number [] d = going d
run_tricks trick_type number (turns ∷ tricks) d =
    run_trick trick_type number turns d >>= run_tricks trick_type (number + 1) tricks

-- `run_deal`, for the turns of its tricks.
unfoldable pub conduct_deal : ℕ → Bytes → List (List Turn) → Desk → Course
unfolding tell_all run_tricks barrier
conduct_deal trick_type seat tricks d =
    tell_all deal_signal
      (record d { server = begin_deal trick_type seat d.server; scores = no_scores })
    >>= run_tricks trick_type 1 tricks
    >>= (λ d'. tell_all scores (record d' { server = end_deal (d'.scores, d'.server) }))
    >>= barrier
