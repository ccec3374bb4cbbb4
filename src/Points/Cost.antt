-- ===== src/Points/Cost.antt =====
-- The price of a trick, card by card: what the rules say, and what the calculator charges.
use kierki_sik.Prelude.{
  ◌≤◌, ◌<◌, ◌⊎◌, ℕ, ◌+◌, ◌*◌, ◌||◌, ◌≡◌, refl, ap, ◌∙◌, List, [], ◌∷◌, ◌&&◌, some, Bytes, map, same,
  codes, ◌==◌, if◌then◌else◌, arith,
}
use kierki_sik.Prelude.Int.{pos, negsuc}
use kierki_sik.Cards.{
  Card, Suit, Rank, card_text, rank_value, suit_char, clubs, hearts, two, jack, queen, king,
}
use kierki_sik.Seats.{Seat, north, seat_text, turns_after}
use kierki_sik.Points.{
  color_at, figure_at, sum_places, Calculator, no_tricks, no_hearts, no_queens, no_misters,
  no_hearts_king, no_seventh_last_trick, bandit, calculate_points, trick_result, find_taker,
}
use kierki_sik.Points.Faces.{face_color, face_figure, seated, new_calculator-seated}
use kierki_sik.Points.Taker.{winner, find_taker-winner, IsBest, winner-IsBest}

abbrev pub heart : Suit → ℕ
heart hearts = 1
heart _ = 0

abbrev pub queen_cost : Rank → ℕ
queen_cost queen = 5
queen_cost _ = 0

abbrev pub mister_cost : Rank → ℕ
mister_cost jack = 2
mister_cost king = 2
mister_cost _ = 0

abbrev pub king_cost : Rank → ℕ
king_cost king = 18
king_cost _ = 0

abbrev pub heart_cost : Card → ℕ
heart_cost c = heart c.suit

abbrev pub hearts_king_cost : Card → ℕ
hearts_king_cost c = heart c.suit * king_cost c.rank

-- The sum over the cards, in any order.
abbrev pub total : (Card → ℕ) → List Card → ℕ
total f [] = 0
total f (c ∷ cs) = f c + total f cs

heart_test : (c : Card) → (if same (face_color c) (codes "H") then 1 else 0) ≡ heart c.suit
unfolding same
heart_test c = of_suit c.suit
  where
    of_suit : (u : Suit) → (if same (suit_char u ∷ []) (codes "H") then 1 else 0) ≡ heart u
    of_suit clubs = refl
    of_suit _ = refl

queen_test : (r : Rank) → (if rank_value r == 12 then 5 else 0) ≡ queen_cost r
queen_test two = refl
queen_test _ = refl

mister_test :
    (r : Rank) → (if rank_value r == 11 || rank_value r == 13 then 2 else 0) ≡ mister_cost r
mister_test two = refl
mister_test _ = refl

hearts_king_test :
    (c : Card)
    → (if same (face_color c) (codes "H") && rank_value c.rank == 13 then 18 else 0)
      ≡ hearts_king_cost c
unfolding same
hearts_king_test c = of_parts c.suit c.rank
  where
    of_parts :
        (u : Suit) (r : Rank)
        → (if same (suit_char u ∷ []) (codes "H") && rank_value r == 13 then 18 else 0)
          ≡ heart u * king_cost r
    of_parts clubs r = ground arith
    of_parts hearts two = refl
    of_parts hearts _ = refl
    of_parts _ r = ground arith

-- A sum over the places is the sum over the cards, whoever leads.
sum_places-total :
    (g : Bytes → ℕ → ℕ) (cost : Card → ℕ)
    → ((x : Card) → g (face_color x) (face_figure x) ≡ cost x)
    → (s : Seat) (t n : ℕ) (a b c d : Card)
    → sum_places (λ i. g (color_at (seated s t n a b c d) i) (figure_at (seated s t n a b c d) i))
      ≡ total cost (a ∷ b ∷ c ∷ d ∷ [])
sum_places-total g cost e north t n a b c d = omega (arith, e a, e b, e c, e d)
sum_places-total g cost e _ t n a b c d = omega (arith, e a, e b, e c, e d)

module _ (s : Seat) (t n : ℕ) (a b c d : Card) where
  no_hearts-total : no_hearts (seated s t n a b c d) ≡ total heart_cost (a ∷ b ∷ c ∷ d ∷ [])
  unfolding no_hearts
  no_hearts-total =
      sum_places-total (λ u v. if same u (codes "H") then 1 else 0) heart_cost heart_test s t n a b
        c d

  no_queens-total :
      no_queens (seated s t n a b c d) ≡ total (λ x. queen_cost x.rank) (a ∷ b ∷ c ∷ d ∷ [])
  unfolding no_queens
  no_queens-total =
      sum_places-total (λ u v. if v == 12 then 5 else 0) _ (λ x. queen_test x.rank) s t n a b c d

  no_misters-total :
      no_misters (seated s t n a b c d) ≡ total (λ x. mister_cost x.rank) (a ∷ b ∷ c ∷ d ∷ [])
  unfolding no_misters
  no_misters-total =
      sum_places-total (λ u v. if v == 11 || v == 13 then 2 else 0) _ (λ x. mister_test x.rank) s t
        n a b c d

  no_hearts_king-total :
      no_hearts_king (seated s t n a b c d) ≡ total hearts_king_cost (a ∷ b ∷ c ∷ d ∷ [])
  unfolding no_hearts_king
  no_hearts_king-total =
      sum_places-total (λ u v. if same u (codes "H") && v == 13 then 18 else 0) _ hearts_king_test s
        t n a b c d

-- The calculator charges forty points for the seventh and for the last trick: ten for each round of
-- its loop.
abbrev pub late_cost : ℕ → ℕ
late_cost n = if n == 7 || n == 13 then 40 else 0

no_seventh_last_trick-late_cost :
    (s : Seat) (t n : ℕ) (a b c d : Card)
    → no_seventh_last_trick (seated s t n a b c d) ≡ late_cost n
unfolding no_seventh_last_trick
no_seventh_last_trick-late_cost s t n a b c d = ground arith

-- What the calculator charges for trick number `n` of a deal of type `t`.
abbrev pub deal_cost : ℕ → ℕ → List Card → ℕ
deal_cost t n cs =
    if t == 1
    then 1
    else if t == 2
    then total heart_cost cs
    else if t == 3
    then total (λ x. queen_cost x.rank) cs
    else if t == 4
    then total (λ x. mister_cost x.rank) cs
    else if t == 5
    then total hearts_king_cost cs
    else if t == 6
    then late_cost n
    else 1
      + total heart_cost cs
      + total (λ x. queen_cost x.rank) cs
      + total (λ x. mister_cost x.rank) cs
      + total hearts_king_cost cs
      + late_cost n

calculate_points-deal_cost :
    (s : Seat) (t n : ℕ) (a b c d : Card)
    → 1 ≤ t
    → t ≤ 7
    → calculate_points (seated s t n a b c d)
      ≡ (find_taker (seated s t n a b c d), pos (deal_cost t n (a ∷ b ∷ c ∷ d ∷ [])))
unfolding calculate_points no_tricks bandit
calculate_points-deal_cost s t n a b c d low high =
    rw
      (
        no_hearts-total s t n a b c d,
        no_queens-total s t n a b c d,
        no_misters-total s t n a b c d,
        no_hearts_king-total s t n a b c d,
        no_seventh_last_trick-late_cost s t n a b c d,
      )
      (ground arith)

-- In a deal of type 1 to 7 the trick of four cards goes to the seat of its best card, at what the
-- calculator charges.
pub trick_result-deal_cost :
    (s : Seat) (t n : ℕ) (a b c d : Card)
    → 1 ≤ t
    → t ≤ 7
    → (j : ℕ) × IsBest a b c d j
      × (trick_result (map card_text (a ∷ b ∷ c ∷ d ∷ [])) (seat_text s) t n
          ≡ some (seat_text (turns_after j s), pos (deal_cost t n (a ∷ b ∷ c ∷ d ∷ []))))
unfolding trick_result
trick_result-deal_cost s t n a b c d low high = (
  winner a b c d,
  winner-IsBest a b c d,
  rw (
    new_calculator-seated s t n a b c d,
    calculate_points-deal_cost s t n a b c d low high,
    find_taker-winner s t n a b c d,
  ),
)

-- By the rules the seventh and the last trick cost ten points.
abbrev pub late_price : ℕ → ℕ
late_price n = if n == 7 || n == 13 then 10 else 0

-- The price by the rules.
abbrev pub rule_cost : ℕ → ℕ → List Card → ℕ
rule_cost t n cs =
    if t == 1
    then 1
    else if t == 2
    then total heart_cost cs
    else if t == 3
    then total (λ x. queen_cost x.rank) cs
    else if t == 4
    then total (λ x. mister_cost x.rank) cs
    else if t == 5
    then total hearts_king_cost cs
    else if t == 6
    then late_price n
    else 1
      + total heart_cost cs
      + total (λ x. queen_cost x.rank) cs
      + total (λ x. mister_cost x.rank) cs
      + total hearts_king_cost cs
      + late_price n

-- What is charged too much.
abbrev pub overcharge : ℕ → ℕ → ℕ
overcharge t n = if (t == 6 || t == 7) && (n == 7 || n == 13) then 30 else 0

deal_cost-rule_cost :
    (t n : ℕ) (cs : List Card)
    → 1 ≤ t
    → t ≤ 7
    → deal_cost t n cs ≡ rule_cost t n cs + overcharge t n
deal_cost-rule_cost t n cs low high = ground arith

-- In a deal of type 1 to 7 the trick of four cards goes to the seat of its best card, at the price of
-- the rules, except that the seventh and the last trick of the types 6 and 7 cost thirty points more
-- than the ten of the rules.
pub trick_result-rule_cost :
    (s : Seat) (t n : ℕ) (a b c d : Card)
    → 1 ≤ t
    → t ≤ 7
    → (j : ℕ) × IsBest a b c d j
      × (trick_result (map card_text (a ∷ b ∷ c ∷ d ∷ [])) (seat_text s) t n
          ≡ some (
            seat_text (turns_after j s),
            pos (rule_cost t n (a ∷ b ∷ c ∷ d ∷ []) + overcharge t n),
          ))
trick_result-rule_cost s t n a b c d low high =
    let (j, best, e) = trick_result-deal_cost s t n a b c d low high in
    (
      j,
      best,
      e
          ∙ ap (λ p. some (seat_text (turns_after j s), pos p))
              (deal_cost-rule_cost t n (a ∷ b ∷ c ∷ d ∷ []) low high),
    )

calculate_points_unknown :
    (k : Calculator)
    → (k.trick_type ≡ 0) ⊎ (7 < k.trick_type)
    → calculate_points k ≡ (find_taker k, negsuc 0)
unfolding calculate_points
calculate_points_unknown k h = ground arith

-- With any other type of deal than 1 to 7 the taker gets minus one point.
trick_result_unknown :
    (s : Seat) (t n : ℕ) (a b c d : Card)
    → (t ≡ 0) ⊎ (7 < t)
    → trick_result (map card_text (a ∷ b ∷ c ∷ d ∷ [])) (seat_text s) t n
      ≡ some (seat_text (turns_after (winner a b c d) s), negsuc 0)
unfolding trick_result
trick_result_unknown s t n a b c d h = rw (
  new_calculator-seated s t n a b c d,
  calculate_points_unknown (seated s t n a b c d) h,
  find_taker-winner s t n a b c d,
)
