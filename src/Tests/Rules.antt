-- ===== src/Tests/Rules.antt =====
-- The game: plays, tricks and deals on concrete cards.
use mathlib.Core.List.Perm
use kierki_sik.Prelude.{
  ◌≤◌, ℕ, ◌+◌, ◌≡◌, refl, [], ◌∷◌, ◌++◌, map, true, some, codes, inl, inr, length, arith, same,
  last_char,
}
use kierki_sik.Prelude.Int.{pos, ◌+ℤ◌, ℤ}
use kierki_sik.Cards.{Card, card_text, deck}
use kierki_sik.Seats.{Seat, north, seat_text, turns_after}
use kierki_sik.Messages.{trick_message}
use kierki_sik.Regex.Backtracking.{backtracking}
use kierki_sik.Points.{trick_result}
use kierki_sik.Points.Taker.{IsBest}
use kierki_sik.Points.Cost.{trick_result-rule_cost}
use kierki_sik.StdMap.{at_or, lookup}
use kierki_sik.Server.{Serwer, going, seat_index}
use kierki_sik.Server.Play.{parse_message}
use kierki_sik.Server.Play.Legal.{Follows}
use kierki_sik.Server.Play.Verdicts.{
  play_text, played, told_wrong, parse_message_legal, parse_message_refused,
}
use kierki_sik.Server.Deal.{run_deal}
use kierki_sik.Server.Deal.Tallies.{tally, sum}
use kierki_sik.Server.Deal.Scores.{table_of, run_deal-whole_deal}
use kierki_sik.Klient.{receive, sent, strategy}
use kierki_sik.Klient.Strategy.{Chosen, strategy-Chosen}
use kierki_sik.Interplay.{receive-parse_message}
use kierki_sik.Tests.{
  tricks_of, ace_of_spades, two_of_hearts, queen_of_spades, two_of_clubs, table_3, east_turn,
  east_player,
}

receive-parse_message_example :
    (c : Card) × ((receive backtracking true (trick_message 3 (codes "QS" ∷ [])) east_player).1
      ≡ sent (play_text 3 c) ∷ [])
    × (parse_message backtracking (play_text 3 c) 3 (east_turn true)
        ≡ going (played (card_text c) (east_turn true)))
unfolding seat_index same
receive-parse_message_example =
    receive-parse_message backtracking east_player (east_turn true) (queen_of_spades ∷ [])
      (omega arith, omega arith) refl (λ e. ground arith)
      ((ace_of_spades, refl), ((two_of_hearts, refl), tt)) (λ x. ((λ h. h), (λ h. h))) refl
      (omega arith) refl refl

parse_message_legal_example :
    parse_message backtracking (play_text 3 ace_of_spades) 3 (east_turn true)
    ≡ going (played (codes "AS") (east_turn true))
unfolding seat_index at_or lookup same last_char
parse_message_legal_example =
    parse_message_legal backtracking 3 ace_of_spades (east_turn true) (omega arith, omega arith)
      refl refl (inl refl, inl refl)

not_following : ¬ Follows (codes "QS" ∷ []) (codes "AS" ∷ codes "2H" ∷ []) (codes "2H")
unfolding last_char
not_following (inl e) = ground arith
not_following (inr all) = all.0 refl

-- The two of hearts does not follow the queen of spades while the ace is in the hand.
parse_message_refused_example :
    parse_message backtracking (play_text 3 two_of_hearts) 3 (east_turn true)
    ≡ going (told_wrong 3 (east_turn true))
unfolding seat_index at_or lookup same
parse_message_refused_example =
    parse_message_refused backtracking 3 3 two_of_hearts (east_turn true) (omega arith, omega arith)
      (omega arith, omega arith) refl refl ((ace_of_spades, refl), ((two_of_hearts, refl), tt))
      (λ p. not_following p.1.1)

trick_result-rule_cost_example :
    (j : ℕ) × IsBest queen_of_spades two_of_hearts ace_of_spades two_of_clubs j
    × (trick_result (codes "QS" ∷ codes "2H" ∷ codes "AS" ∷ codes "2C" ∷ []) (codes "N") 7 7
        ≡ some (seat_text (turns_after j north), pos 47))
trick_result-rule_cost_example =
    trick_result-rule_cost north 7 7 queen_of_spades two_of_hearts ace_of_spades two_of_clubs
      (omega arith) (omega arith)

strategy-Chosen_example :
    Chosen
      (codes "H")
      east_player
      (strategy (codes "H") east_player).0
      (strategy (codes "H") east_player).1
strategy-Chosen_example = strategy-Chosen (codes "H") east_player (λ e. ground arith)

run_deal-whole_deal_example :
    (f : Seat → ℤ) × (s' : Serwer) × (run_deal 6 (codes "N") (map table_of (tricks_of deck)) table_3
      ≡ some s')
    × (sum f ≡ pos 80)
    × ((y : Seat) → (p : ℕ) × (f y ≡ pos p) × (p ≤ 80))
    × (s'.round_scores ≡ tally f)
    × (s'.total_scores ≡ tally (λ y. pos 0 +ℤ f y))
    × (s'.taken_tricks ≡ table_3.taken_tricks ++ map table_of (tricks_of deck))
    × (length s'.taken_takers ≡ 1 + 13)
run_deal-whole_deal_example =
    run_deal-whole_deal 6 north (tricks_of deck) (λ y. pos 0) (λ y. pos 0) table_3 (omega arith)
      (omega arith) refl (Perm.refl deck) refl refl
