-- ===== src/Server/Deal/Scores.antt =====
-- The scores after a deal.
use kierki_sik.Prelude.{
  ℕ, suc, ◌+◌, ◌≤◌, ◌≡◌, refl, ap, sym, ◌∙◌, List, [], ◌∷◌, ◌++◌, append_assoc, append-nil, map,
  some, Bytes, codes, length, length-append, arith, same,
}
use mathlib.Core.List.{Perm}
use kierki_sik.Prelude.Int.{ℤ, pos, ◌+ℤ◌}
use kierki_sik.StdMap.{at_or, lookup}
use kierki_sik.Cards.{Card, card_text, deck}
use kierki_sik.Seats.{Seat, north, seat_text, seat_at, turns_after}
use kierki_sik.Points.Cost.{deal_cost, trick_result-deal_cost}
use kierki_sik.Points.Deal.{cards_of, price_of, whole_deal, price_of-whole_deal}
use kierki_sik.Server.{Serwer, seat_index}
use kierki_sik.Server.Deal.{
  begin_deal, begin_trick, give_turn, put_card, take_turns, end_trick, play_trick, play_tricks,
  add_scores, copy_scores, end_deal, run_deal,
}
use kierki_sik.Server.Deal.Tallies.{
  tally, sum, bump, add_to-tally, sum-bump, add_scores-tally, copy_scores-tally, Grown, +ℤ-zero,
  +ℤ-later, bump-Grown, trans-Grown, from_nothing, points, shares,
}

-- Four cards on the table, in the order in which they were played.
abbrev pub Trick : Type 0
Trick = Card × Card × Card × Card

abbrev pub cards_in : Trick → List Card
cards_in (a, b, c, d) = a ∷ b ∷ c ∷ d ∷ []

abbrev pub table_of : Trick → List Bytes
table_of t = map card_text (cards_in t)

-- The shared state after a trick with the four cards that `y` has taken.
abbrev taken_by : Seat → Trick → Seat → Serwer → Serwer
taken_by x t y s = record s {
  cards_on_table = table_of t;
  trick_number = s.trick_number + 1;
  player_turn = codes "x";
  last_taker = seat_text y;
  taken_tricks = s.taken_tricks ++ table_of t ∷ [];
  taken_takers = s.taken_takers ++ seat_text y ∷ [];
}

seat_index-seat_text : (x : Seat) → seat_at (seat_index (seat_text x)) ≡ seat_text x
unfolding seat_index at_or lookup same
seat_index-seat_text north = refl
seat_index-seat_text _ = refl

play_trick-taken :
    (k n : ℕ) (t : Trick) (x : Seat) (f : Seat → ℤ) (s : Serwer)
    → 1 ≤ k
    → k ≤ 7
    → s.last_taker ≡ seat_text x
    → (y : Seat) × (play_trick k n (table_of t) (tally f, s)
        ≡ some (tally (bump y (pos (deal_cost k n (cards_in t))) f), taken_by x t y s))
unfolding play_trick begin_trick take_turns give_turn put_card end_trick
play_trick-taken k n (a, b, c, d) x f s low high e =
    let (j, best, r) = trick_result-deal_cost x k n a b c d low high in
    (
      turns_after j x,
      rw (e, seat_index-seat_text x, r)
          (ap (λ l. some (l, taken_by x (a, b, c, d) (turns_after j x) s))
            (add_to-tally (turns_after j x) _ f)),
    )

-- What the tricks `ts` of a deal of type `k`, numbered from `n` on, do to the scores and the state.
record Outcome (k n : ℕ) (ts : List Trick) (f : Seat → ℤ) (s : Serwer) : Type 0 where
  scores : Seat → ℤ
  after : Serwer
  runs : play_tricks k n (map table_of ts) (tally f, s) ≡ some (tally scores, after)
  grown : (y : Seat) → Grown (f y) (scores y)
  charged : sum scores ≡ sum f +ℤ pos (price_of k n (map cards_in ts))
  tricks_kept : after.taken_tricks ≡ s.taken_tricks ++ map table_of ts
  takers_kept : length after.taken_takers ≡ length s.taken_takers + length ts
  totals_kept : after.total_scores ≡ s.total_scores
  rounds_kept : after.round_scores ≡ s.round_scores

play_tricks-Outcome :
    (k n : ℕ) (ts : List Trick) (x : Seat) (f : Seat → ℤ) (s : Serwer)
    → 1 ≤ k
    → k ≤ 7
    → s.last_taker ≡ seat_text x
    → Outcome k n ts f s
unfolding play_tricks
play_tricks-Outcome k n [] x f s low high e = record {
  scores = f;
  after = s;
  runs = refl;
  grown = λ y. (0, +ℤ-zero (f y));
  charged = +ℤ-zero (sum f);
  tricks_kept = sym (append-nil s.taken_tricks);
  takers_kept = omega arith;
  totals_kept = refl;
  rounds_kept = refl;
}
play_tricks-Outcome k n (t ∷ ts) x f s low high e =
    let (y, r) = play_trick-taken k n t x f s low high e in
    let cost = deal_cost k n (cards_in t) in
    let next = taken_by x t y s in
    let rest = play_tricks-Outcome k (n + 1) ts y (bump y (pos cost) f) next low high refl in
    record {
      scores = rest.scores;
      after = rest.after;
      runs = rw r rest.runs;
      grown = λ z.
          trans-Grown (f z) (bump y (pos cost) f z) (rest.scores z) (bump-Grown y cost f z)
            (rest.grown z);
      charged =
          rest.charged
          ∙ ap (λ a. a +ℤ pos (price_of k (n + 1) (map cards_in ts))) (sum-bump y (pos cost) f)
          ∙ +ℤ-later (sum f) cost (price_of k (n + 1) (map cards_in ts));
      tricks_kept =
          rest.tricks_kept ∙ append_assoc s.taken_tricks (table_of t ∷ []) (map table_of ts);
      takers_kept =
          omega (arith, rest.takers_kept, length-append s.taken_takers (seat_text y ∷ []));
      totals_kept = rest.totals_kept;
      rounds_kept = rest.rounds_kept;
    }

length-map-cards : (ts : List Trick) → length (map cards_in ts) ≡ length ts
length-map-cards [] = refl
length-map-cards (t ∷ ts) = ap suc (length-map-cards ts)

-- A deal of type 1 to 7 with thirteen tricks in which the fifty-two cards are played, by
-- whomever and in whatever order, never fails: it hands out exactly the points of its type in
-- all, they are the scores of the round and are added to the totals seat by seat, and the tricks
-- are kept in order with as many takers. Both maps of scores have the four seats at the start.
pub run_deal-whole_deal :
    (k : ℕ) (x : Seat) (ts : List Trick) (g h : Seat → ℤ) (s : Serwer)
    → 1 ≤ k
    → k ≤ 7
    → length ts ≡ 13
    → Perm (cards_of (map cards_in ts)) deck
    → s.total_scores ≡ tally g
    → s.round_scores ≡ tally h
    → (f : Seat → ℤ) × (s' : Serwer) × (run_deal k (seat_text x) (map table_of ts) s ≡ some s')
      × (sum f ≡ pos (whole_deal k))
      × ((y : Seat) → (p : ℕ) × (f y ≡ pos p) × (p ≤ whole_deal k))
      × (s'.round_scores ≡ tally f)
      × (s'.total_scores ≡ tally (λ y. g y +ℤ f y))
      × (s'.taken_tricks ≡ s.taken_tricks ++ map table_of ts)
      × (length s'.taken_takers ≡ length s.taken_takers + 13)
unfolding run_deal begin_deal end_deal
run_deal-whole_deal k x ts g h s low high thirteen all totals rounds =
    let p =
      play_tricks-Outcome k 1 ts x (λ _. pos 0) (begin_deal k (seat_text x) s) low high refl in
    let charged : sum p.scores ≡ pos (whole_deal k) =
      p.charged
      ∙ ap (λ n. pos 0 +ℤ pos 0 +ℤ pos 0 +ℤ pos 0 +ℤ pos n)
          (price_of-whole_deal (map cards_in ts) (length-map-cards ts ∙ thirteen) all k low high)
      ∙ from_nothing (whole_deal k) in
    (
      p.scores,
      end_deal (tally p.scores, p.after),
      rw p.runs refl,
      charged,
      shares p.scores (whole_deal k) (λ y. points (p.scores y) (p.grown y)) charged,
      ap (copy_scores (tally p.scores)) (p.rounds_kept ∙ rounds) ∙ copy_scores-tally p.scores h,
      ap (add_scores (tally p.scores)) (p.totals_kept ∙ totals) ∙ add_scores-tally p.scores g,
      p.tricks_kept,
      p.takers_kept ∙ ap (λ n. length s.taken_takers + n) thirteen,
    )
