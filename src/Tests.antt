-- ===== src/Tests.antt =====
-- Tests of the definitions, and the theorems on concrete data, with a backtracking engine in the
-- place of Boost.Regex.
mod Rules
mod Room
mod Wire
mod Meeting
mod Player
mod Game
mod Ends
mod Deal
use kierki_sik.Prelude.{ℕ, List, [], ◌∷◌, Bool, true, false, none, some, Bytes, codes}
use kierki_sik.Prelude.Int.{pos}
use kierki_sik.Cards.{Card, ace, queen, two, spades, hearts, clubs}
use kierki_sik.Server.{Serwer, Client, World, no_scores}
use kierki_sik.Klient.{Klient}
use kierki_sik.FileReader.{FileReader, at_start}
use kierki_sik.Server.Deal.Scores.{Trick}

abbrev pub ace_of_spades : Card
ace_of_spades = record { rank = ace; suit = spades }

abbrev pub two_of_hearts : Card
two_of_hearts = record { rank = two; suit = hearts }

abbrev pub queen_of_spades : Card
queen_of_spades = record { rank = queen; suit = spades }

abbrev pub two_of_clubs : Card
two_of_clubs = record { rank = two; suit = clubs }

-- In trick 3 the queen of spades lies on the table, and E, with two cards left, is to play. W is free.
abbrev pub table_3 : Serwer
table_3 = record {
  timeout = 5000;
  occupied = 3;
  seats_status =
      (codes "E", some 7) ∷ (codes "N", some 6) ∷ (codes "S", some 8) ∷ (codes "W", none) ∷ [];
  cards_on_table = codes "QS" ∷ [];
  round_scores = no_scores;
  total_scores = no_scores;
  trick_number = 3;
  cards = [] ∷ (codes "AS" ∷ codes "2H" ∷ []) ∷ [] ∷ [] ∷ [];
  deal = (codes "QS" ∷ []) ∷ (codes "AS" ∷ codes "2H" ∷ []) ∷ [] ∷ (codes "2C" ∷ []) ∷ [];
  taken_tricks = (codes "2S" ∷ codes "3S" ∷ codes "4S" ∷ codes "5S" ∷ []) ∷ [];
  taken_takers = codes "N" ∷ [];
  deal_starter = codes "N";
  trick_type_global = 1;
  start_seat_global = codes "N";
  last_taker = codes "N";
  player_turn = codes "E";
  b_is_barrier_ongoing = false;
  barrier_messages = [] ∷ [] ∷ [] ∷ [] ∷ [];
}

abbrev pub east_client : Bool → Bool → Client
east_client turn barrier = record {
  client_fd = 7;
  seat = codes "E";
  b_was_destined_to_play = turn;
  b_is_barrier = barrier;
  current_trick = 3;
  timeout_copy = 100;
}

abbrev pub east_turn : Bool → World
east_turn turn = record {
  server = table_3;
  client = east_client turn false;
  events = [];
  answers = true ∷ [];
}

abbrev pub east_player : Klient
east_player = record {
  seat = codes "E";
  is_ai = true;
  messages_to_send = [];
  taken_tricks = [];
  my_cards = codes "AS" ∷ codes "2H" ∷ [];
  played_cards = [];
  trick_number = 3;
  got_score = false;
  got_total = false;
  expected_color = [];
}

abbrev pub fresh_reader : FileReader
fresh_reader = record {
  b_was_stream_opened = false;
  file_stream = at_start [];
  trick_type = 0;
  seat = [];
  cards = [];
}

-- The dealer's deck, cut into tricks of four.
abbrev pub tricks_of : List Card → List Trick
tricks_of (a ∷ b ∷ c ∷ d ∷ cards) = (a, b, c, d) ∷ tricks_of cards
tricks_of _ = []
