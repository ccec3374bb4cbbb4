-- ===== src/Server/Deal.antt =====
-- serwer.cpp, `Serwer::run_deal` and the part of `run_game` that prepares a deal: what the server's
-- main thread does to the shared state under `memory_mutex`, for a deal in which the four clients'
-- threads put the given cards on the table, every write to a pipe is complete and every barrier ends.
pub mod Tallies
pub mod Scores
pub mod Game
use kierki_sik.Prelude.{
  ℕ, zero, suc, ◌+◌, ◌%◌, List, [], ◌∷◌, ◌++◌, Option, none, some, Bytes, codes, set, get_or,
}
use kierki_sik.Prelude.Int.{ℤ, pos, ◌+ℤ◌}
use kierki_sik.StdMap.{at_or, assign}
use kierki_sik.Seats.{seat_at}
use kierki_sik.Regex.{Boost, extract_cards}
use kierki_sik.FileReader.{
  FileReader, Outcome, not_opened, threw, end_of_file, read, read_next_deal,
}
use kierki_sik.Points.{trick_result, ◌>>=◌}
use kierki_sik.Server.{Serwer, seat_index, no_scores}

-- `scores[seat] += points`.
unfoldable pub add_to : Bytes → ℤ → List (Bytes × ℤ) → List (Bytes × ℤ)
add_to seat points scores = assign seat (at_or (pos 0) seat scores +ℤ points) scores

-- `run_game`: the hands of the next deal, written to the players' cards and kept for newcomers.
unfoldable pub prepare_deal : Boost → Bytes → List Bytes → Serwer → Serwer
prepare_deal boost starting_seat raw_cards s = record s {
  deal_starter = starting_seat;
  taken_tricks = [];
  taken_takers = [];
  cards = hands;
  deal = hands;
}
  where
    hands : List (List Bytes)
    hands =
        extract_cards boost (get_or raw_cards 0 [])
        ∷ extract_cards boost (get_or raw_cards 1 [])
        ∷ extract_cards boost (get_or raw_cards 2 [])
        ∷ extract_cards boost (get_or raw_cards 3 [])
        ∷ []

unfoldable pub begin_deal : ℕ → Bytes → Serwer → Serwer
begin_deal trick_type seat s = record s {
  trick_type_global = trick_type;
  start_seat_global = seat;
  last_taker = seat;
  trick_number = 0;
}

unfoldable pub begin_trick : Serwer → Serwer
begin_trick s = record s { cards_on_table = []; trick_number = s.trick_number + 1 }

-- `player_turn = seats[(beginning + i) % 4]`.
unfoldable pub give_turn : ℕ → ℕ → Serwer → Serwer
give_turn beginning i s = record s { player_turn = seat_at ((beginning + i) % 4) }

-- The table and the turn as a client's thread leaves them (`parse_message`).
unfoldable pub put_card : Bytes → Serwer → Serwer
put_card card s = record s {
  cards_on_table = s.cards_on_table ++ card ∷ [];
  player_turn = codes "x";
}

unfoldable pub take_turns : ℕ → ℕ → List Bytes → Serwer → Serwer
unfolding put_card give_turn
take_turns beginning i [] s = s
take_turns beginning i (card ∷ cards) s =
    take_turns beginning (i + 1) cards (put_card card (give_turn beginning i s))

-- "Got four cards": the calculator, the scores of the deal and the tricks kept for newcomers.
unfoldable pub end_trick :
    ℕ → ℕ → ℕ → List (Bytes × ℤ) × Serwer → Option (List (Bytes × ℤ) × Serwer)
end_trick beginning trick_type number (scores, s) = do
  (taker, points) ← trick_result s.cards_on_table (seat_at beginning) trick_type number
  some (
    add_to taker points scores,
    record s {
      last_taker = taker;
      taken_tricks = s.taken_tricks ++ s.cards_on_table ∷ [];
      taken_takers = s.taken_takers ++ taker ∷ [];
    },
  )

-- One round of the loop over the tricks.
unfoldable pub play_trick :
    ℕ → ℕ → List Bytes → List (Bytes × ℤ) × Serwer → Option (List (Bytes × ℤ) × Serwer)
play_trick trick_type number table (scores, s) =
    end_trick (seat_index s.last_taker) trick_type number
      (scores, take_turns (seat_index s.last_taker) 0 table (begin_trick s))

unfoldable pub play_tricks :
    ℕ → ℕ → List (List Bytes) → List (Bytes × ℤ) × Serwer → Option (List (Bytes × ℤ) × Serwer)
play_tricks trick_type number [] state = some state
play_tricks trick_type number (table ∷ tables) state = do
  state' ← play_trick trick_type number table state
  play_tricks trick_type (number + 1) tables state'

-- `for (key, value) total_scores[key] += value`.
unfoldable pub add_scores : List (Bytes × ℤ) → List (Bytes × ℤ) → List (Bytes × ℤ)
add_scores [] totals = totals
add_scores ((seat, points) ∷ scores) totals = add_scores scores (add_to seat points totals)

-- `for (key, value) round_scores[key] = value`.
unfoldable pub copy_scores : List (Bytes × ℤ) → List (Bytes × ℤ) → List (Bytes × ℤ)
copy_scores [] rounds = rounds
copy_scores ((seat, points) ∷ scores) rounds = copy_scores scores (assign seat points rounds)

unfoldable pub end_deal : List (Bytes × ℤ) × Serwer → Serwer
end_deal (scores, s) = record s {
  total_scores = add_scores scores s.total_scores;
  round_scores = copy_scores scores s.round_scores;
}

-- The deal whose tricks see these cards on the table.
unfoldable pub run_deal : ℕ → Bytes → List (List Bytes) → Serwer → Option Serwer
run_deal trick_type seat tables s = do
  state ← play_tricks trick_type 1 tables (no_scores, begin_deal trick_type seat s)
  some (end_deal state)

-- The loop of `run_game`, at most `n` reads: each deal is read, prepared and played with the next of
-- the lists of tables. `none` if the reads do not end it, if no play is left for a deal, or if an
-- exception ends it.
unfoldable pub run_game :
    Boost → ℕ → Option Bytes → FileReader → List (List (List Bytes)) → Serwer → Option Serwer
run_game boost zero file r plays s = none
run_game boost (suc n) file r plays s = elim (read_next_deal file r) [
  | not_opened ↦ some s
  | threw ↦ none
  | end_of_file r' ↦ some s
  | read r' ↦ elim plays [
    | [] ↦ none
    | tables ∷ rest ↦ (do
      s' ← run_deal r'.trick_type r'.seat tables (prepare_deal boost r'.seat r'.cards s)
      run_game boost n file r' rest s')
  ]
]
