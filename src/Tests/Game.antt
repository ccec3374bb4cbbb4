-- ===== src/Tests/Game.antt =====
-- A client's thread, a game and its messages on concrete data.
use kierki_sik.Prelude.{
  ℕ, ◌<◌, ◌≤◌, ◌^◌, ◌≡◌, ◌↔◌, refl, List, [], ◌∷◌, ◌++◌, true, some, Bytes, codes, map, arith,
  length,
}
use kierki_sik.Prelude.Int.{pos}
use mathlib.Core.List.Perm
use kierki_sik.Cards.{Card, card_text, deck}
use kierki_sik.Seats.{Seat, north, east, south, west, seat_text}
use kierki_sik.StdMap.{at_or}
use kierki_sik.Decimal.{to_string, to_string_int}
use kierki_sik.Regex.{
  iam_check, deal_check, trick_check, trick_client_check, wrong_check, taken_check,
}
use kierki_sik.Regex.Backtracking.{backtracking}
use kierki_sik.Messages.{
  delimeter, iam_message, deal_message, trick_message, wrong_message, taken_message,
}
use kierki_sik.Messages.Language.{TrickNr, DealType, Exactly, AtMost}
use kierki_sik.Messages.Checks.{client_checks_iff, server_checks_iff}
use kierki_sik.Messages.Bounds.{Message, trick, wrong, score, text-IsSound}
use kierki_sik.Sockets.{byte}
use kierki_sik.Sockets.Framing.{IsPlain}
use kierki_sik.Sockets.Stream.{read_times, read_times-stream}
use kierki_sik.Server.{Serwer, new_serwer}
use kierki_sik.Server.Deal.{run_game}
use kierki_sik.Server.Deal.Game.{
  Play, plays_text, tables, GameOver, run_game-GameOver, run_game-new_serwer,
}
use kierki_sik.Tests.{
  tricks_of, fresh_reader, ace_of_spades, queen_of_spades, two_of_hearts, two_of_clubs, table_3,
}

abbrev hello : Bytes
hello = codes "IAMN\r\n"

client_checks_iff_example :
    ((iam_check backtracking hello ≡ true) ↔ ((x : Seat) × (hello ≡ iam_message (seat_text x))))
    × ((trick_client_check backtracking hello ≡ true)
        ↔ ((p : TrickNr × Card) × (hello ≡ trick_message p.0.0 (card_text p.1 ∷ []))))
client_checks_iff_example = client_checks_iff backtracking hello

abbrev taken_text : Bytes
taken_text = codes "TAKEN310H2CASQSW\r\n"

server_checks_iff_example :
    ((deal_check backtracking taken_text ≡ true) ↔ (
      (p : DealType × (Seat × Exactly 13)) × (taken_text
        ≡ deal_message p.0.0 (seat_text p.1.0) (map card_text p.1.1.0))))
    × ((wrong_check backtracking taken_text ≡ true)
        ↔ ((k : TrickNr) × (taken_text ≡ wrong_message k.0)))
    × ((trick_check backtracking taken_text 3 ≡ true)
        ↔ ((cs : AtMost 3) × (taken_text ≡ trick_message 3 (map card_text cs.0))))
    × ((taken_check backtracking taken_text 3 ≡ true) ↔ (
        (p : Exactly 4 × Seat) × (taken_text
          ≡ taken_message 3 (map card_text p.0.0) (seat_text p.1))))
server_checks_iff_example = server_checks_iff backtracking taken_text 3

-- The scores after a deal of type 6.
abbrev scores_6 : Message
scores_6 = score ((east, pos 40) ∷ (north, pos 0) ∷ (south, pos 40) ∷ (west, pos 0) ∷ [])

text-IsSound_example :
    (body : Bytes) × (codes "SCOREE40N0S40W0\r\n" ≡ body ++ delimeter)
    × IsPlain body
    × (length (codes "SCOREE40N0S40W0\r\n") ≤ 91)
unfolding to_string to_string_int
text-IsSound_example =
    text-IsSound scores_6
      (omega arith, (omega arith, (omega arith, (omega arith, (omega arith, tt)))))

read_times-stream_example :
    read_times 2 (map byte (codes "TRICK3QS\r\nWRONG3\r\n") ++ byte 84 ∷ [])
    ≡ some (codes "TRICK3QS\r\n" ∷ codes "WRONG3\r\n" ∷ [], byte 84 ∷ [])
unfolding to_string
read_times-stream_example =
    read_times-stream (trick 3 (queen_of_spades ∷ []) ∷ wrong 3 ∷ []) (byte 84 ∷ [])
      ((omega arith, omega arith), (omega arith, tt))

-- A deal in which the cards are played in the order of the deck.
abbrev pub play_of : ℕ → Play
play_of trick_type = record {
  deal = record {
    trick_type = trick_type;
    starter = north;
    hands = (two_of_clubs ∷ [], two_of_hearts ∷ [], queen_of_spades ∷ [], ace_of_spades ∷ []);
  };
  tricks = tricks_of deck;
}

-- Deals of the types 6 and 1: 93 points.
abbrev pub two_plays : List Play
two_plays = play_of 6 ∷ play_of 1 ∷ []

run_game-GameOver_example :
    GameOver
      (λ _. pos 0)
      93
      (run_game backtracking 3
        (some (plays_text two_plays))
        fresh_reader
        (tables two_plays)
        table_3)
run_game-GameOver_example =
    run_game-GameOver backtracking two_plays fresh_reader (λ _. pos 0) (λ _. pos 0) table_3
      (
        (omega arith, omega arith, refl, Perm.refl deck),
        ((omega arith, omega arith, refl, Perm.refl deck), tt),
      )
      refl refl refl

run_game-new_serwer_example :
    (s : Serwer) × (run_game backtracking 3
        (some (plays_text two_plays))
        fresh_reader
        (tables two_plays)
        (new_serwer 5 0)
      ≡ some s)
    × ((y : Seat) → (p : ℕ) × (at_or (pos 0) (seat_text y) s.total_scores ≡ pos p) × (p < 2 ^ 31))
run_game-new_serwer_example =
    run_game-new_serwer backtracking two_plays fresh_reader 5 0
      (
        (omega arith, omega arith, refl, Perm.refl deck),
        ((omega arith, omega arith, refl, Perm.refl deck), tt),
      )
      refl (omega arith)
