-- ===== src/Tests/Deal.antt =====
-- The main thread's deal on concrete data: a trick in which W leaves while N is to play.
use kierki_sik.Prelude.{
  ℕ, zero, suc, ◌≡◌, ◌+◌, refl, ap, ◌∙◌, List, [], ◌∷◌, Bool, true, false, Option, none, some,
  Bytes, codes, map, last_char, before, arith, same,
}
use kierki_sik.Prelude.Int.{ℤ, pos, ◌+ℤ◌}
use kierki_sik.Decimal.{stoi}
use kierki_sik.StdMap.{at_or, lookup, assign}
use kierki_sik.Seats.{place}
use kierki_sik.Points.{
  trick_result, new_calculator, calculate_points, find_taker, no_tricks, card_color, card_figure,
}
use kierki_sik.Server.{
  Serwer, card_play, barrier_response, disconnected, new_serwer, seat_index, no_scores,
}
use kierki_sik.Server.Deal.{
  run_deal, play_tricks, play_trick, begin_deal, begin_trick, take_turns, give_turn, put_card,
  end_trick, end_deal, add_to, add_scores, copy_scores,
}
use kierki_sik.Server.Running.{
  Seen, nothing, byte, Meeting, Desk, Course, going, Turn, conduct_deal, wait_for_card,
}
use mathlib.Core.List.Perm
use kierki_sik.Cards.{deck}
use kierki_sik.Seats.{seat_at}
use kierki_sik.Regex.Backtracking.{backtracking}
use kierki_sik.Server.Deal.Scores.{table_of}
use kierki_sik.Server.Deal.Game.{plays_text, GameOver}
use kierki_sik.Server.Running.Answered.{answered_turns, table-answered_turns}
use kierki_sik.Server.Running.Game.{Shut, tables_of, conduct_game, conduct_game-GameOver}
use kierki_sik.Tests.{tricks_of, fresh_reader}
use kierki_sik.Tests.Game.{two_plays}
use kierki_sik.Server.Running.Outcomes.{settled, Goes}
use kierki_sik.Server.Running.Waiting.{Put, SomePoll, wait_for_card-Goes}
use kierki_sik.Server.Running.Sound.{table_of_turns, Dealt, conduct_deal-run_deal}
use kierki_sik.Server.Running.Complete.{conduct_deal-played}

abbrev trues : ℕ → List Bool
trues zero = []
trues (suc n) = true ∷ trues n

-- Three threads come, and the last one in the next round.
abbrev gathering : Meeting
gathering =
    some (nothing ∷ nothing ∷ nothing ∷ nothing ∷ nothing ∷ [], 3)
    ∷ some (nothing ∷ nothing ∷ byte barrier_response ∷ nothing ∷ nothing ∷ [], 4)
    ∷ []

abbrev desk : Desk
desk = record {
  server = new_serwer 5 0;
  b_received_card = false;
  scores = no_scores;
  closings = [];
  told = [];
  writes = trues 40;
  barriers = gathering ∷ gathering ∷ gathering ∷ [];
}

-- W leaves, a barrier brings somebody back, and the player whose pipe is number 1 plays.
abbrev polls : List (Option (List Seen))
polls =
    some (nothing ∷ nothing ∷ nothing ∷ byte disconnected ∷ nothing ∷ [])
    ∷ some (nothing ∷ byte card_play ∷ nothing ∷ nothing ∷ nothing ∷ [])
    ∷ []

wait_for_card-Goes_example :
    Goes desk
      (λ e. Put (codes "AS") desk e × SomePoll 1 polls)
      (wait_for_card 1 (codes "AS") polls desk)
wait_for_card-Goes_example = wait_for_card-Goes 1 (codes "AS") polls desk refl

-- The other players answer at once.
abbrev turns : List Turn
turns =
    (some (byte card_play ∷ nothing ∷ nothing ∷ nothing ∷ nothing ∷ []) ∷ [], codes "2C")
    ∷ (polls, codes "AC")
    ∷ (some (nothing ∷ nothing ∷ byte card_play ∷ nothing ∷ nothing ∷ []) ∷ [], codes "QH")
    ∷ (some (nothing ∷ nothing ∷ nothing ∷ byte card_play ∷ nothing ∷ []) ∷ [], codes "KC")
    ∷ []

-- The state after a course that went on.
abbrev served : Course → Option Serwer
served (going e) = some e.server
served _ = none

conduct_deal-served :
    (s : Serwer) × (served (conduct_deal 1 (codes "N") (turns ∷ []) desk) ≡ some s)
    × (at_or (pos 0) (codes "E") s.total_scores ≡ pos 1)
unfolding conduct_deal begin_deal begin_trick take_turns give_turn put_card end_trick end_deal
    add_to trick_result new_calculator calculate_points find_taker no_tricks card_color card_figure
    stoi last_char before ◌+ℤ◌ new_serwer assign same place seat_index at_or lookup add_scores
    copy_scores
conduct_deal-served = (_, refl, refl)

abbrev tables : List (List Bytes)
tables = (codes "2C" ∷ codes "AC" ∷ codes "QH" ∷ codes "KC" ∷ []) ∷ []

conduct_deal-run_deal_example :
    Goes desk
      (Dealt 1 (codes "N") tables desk.server)
      (conduct_deal 1 (codes "N") (turns ∷ []) desk)
conduct_deal-run_deal_example = conduct_deal-run_deal 1 (codes "N") (turns ∷ []) desk

abbrev or_else : Serwer → Option Serwer → Serwer
or_else s none = s
or_else s (some t) = t

-- The state after the deal.
abbrev after_deal : Serwer
after_deal = or_else desk.server (run_deal 1 (codes "N") tables desk.server)

deal_ends : run_deal 1 (codes "N") tables desk.server ≡ some after_deal
unfolding run_deal play_tricks play_trick begin_deal begin_trick take_turns give_turn put_card
    end_trick end_deal add_to trick_result new_calculator calculate_points find_taker no_tricks
    card_color card_figure stoi last_char before ◌+ℤ◌ new_serwer assign same place seat_index at_or
    lookup add_scores copy_scores
deal_ends = refl

conduct_deal-played_example :
    (tricks : List (List Turn)) × (e : Desk) × (map table_of_turns tricks ≡ tables)
    × (conduct_deal 1 (codes "N") tricks desk ≡ going e)
    × (settled e.server ≡ settled after_deal)
conduct_deal-played_example =
    conduct_deal-played 1 (codes "N") tables desk after_deal deal_ends (omega arith) (omega arith)

abbrev taker_of : Bytes → Option (Bytes × ℤ) → Bytes
taker_of seat none = seat
taker_of seat (some (taker, points)) = taker

-- Who takes the trick that `seat` begins.
abbrev next_taker : ℕ → ℕ → Bytes → List Bytes → Bytes
next_taker trick_type number seat table =
    taker_of seat (trick_result table (seat_at (seat_index seat)) trick_type number)

-- The turns in which players who answer at once play the tables.
abbrev turns_for : ℕ → ℕ → Bytes → List (List Bytes) → List (List Turn)
turns_for trick_type number seat [] = []
turns_for trick_type number seat (table ∷ rest) =
    answered_turns (seat_index seat) 0 table
    ∷ turns_for trick_type (number + 1) (next_taker trick_type number seat table) rest

turns_for-tables :
    (trick_type number : ℕ) (seat : Bytes) (rest : List (List Bytes))
    → tables_of (turns_for trick_type number seat rest) ≡ rest
turns_for-tables trick_type number seat [] = refl
turns_for-tables trick_type number seat (table ∷ rest) =
    let seat' = next_taker trick_type number seat table in
    ap (λ l. l ∷ tables_of (turns_for trick_type (number + 1) seat' rest))
      (table-answered_turns (seat_index seat) 0 table)
    ∙ ap (λ l. table ∷ l) (turns_for-tables trick_type (number + 1) seat' rest)

-- The turns of the deals of types 6 and 1.
abbrev two_games : List (List (List Turn))
two_games =
    turns_for 6 1 (codes "N") (map table_of (tricks_of deck))
    ∷ turns_for 1 1 (codes "N") (map table_of (tricks_of deck))
    ∷ []

abbrev many : ℕ → List Meeting
many zero = []
many (suc n) = gathering ∷ many n

abbrev long_desk : Desk
long_desk = record desk { writes = trues 500; barriers = many 30 }

conduct_game-GameOver_example :
    Goes long_desk
      (λ e. GameOver (λ _. pos 0) 93 (some e.server) × Shut e)
      (conduct_game backtracking 3 (some (plays_text two_plays)) fresh_reader two_games long_desk)
unfolding new_serwer
conduct_game-GameOver_example =
    conduct_game-GameOver backtracking two_plays fresh_reader (λ _. pos 0) (λ _. pos 0) two_games
      long_desk
      (
        (omega arith, omega arith, refl, Perm.refl deck),
        ((omega arith, omega arith, refl, Perm.refl deck), tt),
      )
      refl refl refl
      (ap (λ l. l ∷ map tables_of (turns_for 1 1 (codes "N") (map table_of (tricks_of deck)) ∷ []))
          (turns_for-tables 6 1 (codes "N") (map table_of (tricks_of deck)))
        ∙ ap (λ l. map table_of (tricks_of deck) ∷ l ∷ [])
            (turns_for-tables 1 1 (codes "N") (map table_of (tricks_of deck))))
