-- ===== src/Points/Taker.antt =====
-- Who takes a trick: `find_taker` against the rule of the game.
use kierki_sik.Prelude.{
  ℕ, ◌+◌, ◌≤◌, ◌<◌, ◌≡◌, List, [], ◌∷◌, Bool, true, false, ◌&&◌, same, ltb, Bool-cases, inl, inr,
  if◌then◌else◌, get_or, All, arith, ◌↔◌,
}
use kierki_sik.Cards.{Card, Suit, rank_value, suit_char, clubs}
use kierki_sik.Seats.{Seat, north, seat_text, turns_after, place-seat_text}
use kierki_sik.Points.{find_taker}
use kierki_sik.Points.Faces.{face_color, face_figure, seated}

same_color : (x y : Card) → (same (face_color x) (face_color y) ≡ true) ↔ (x.suit ≡ y.suit)
unfolding same
same_color x y = of_suits x.suit y.suit
  where
    of_suits : (u v : Suit) → (same (suit_char u ∷ []) (suit_char v ∷ []) ≡ true) ↔ (u ≡ v)
    of_suits clubs v = ground arith
    of_suits _ v = ground arith

-- The test of the loop: `x` has the color of the first card and a higher figure than the best.
better : Card → Card → Card → Bool
better lead best x = same (face_color x) (face_color lead) && ltb (face_figure best) (face_figure x)

better_wins :
    (lead best x : Card)
    → better lead best x ≡ true
    → (x.suit ≡ lead.suit) × (rank_value best.rank < rank_value x.rank)
unfolding better
better_wins lead best x h = ground (arith, same_color x lead)

better_loses :
    (lead best x : Card)
    → better lead best x ≡ false
    → x.suit ≡ lead.suit
    → rank_value x.rank ≤ rank_value best.rank
unfolding better
better_loses lead best x h e = ground (arith, same_color x lead)

-- The index of the winning card among those behind `best`, the card at index `w`.
winner_from : Card → List Card → ℕ → Card → ℕ → ℕ
winner_from lead [] i best w = w
winner_from lead (x ∷ xs) i best w =
    winner_from lead xs (i + 1) (if better lead best x then x else best)
      (if better lead best x then i else w)

pub winner : Card → Card → Card → Card → ℕ
unfolding winner_from
winner a b c d = winner_from a (b ∷ c ∷ d ∷ []) 1 a 0

pub find_taker-winner :
    (s : Seat) (t n : ℕ) (a b c d : Card)
    → find_taker (seated s t n a b c d) ≡ seat_text (turns_after (winner a b c d) s)
unfolding find_taker winner better
find_taker-winner north t n a b c d = simp place-seat_text (elim (Bool-cases (better a a b)) [
  | inl e ↦ elim (Bool-cases (better a b c)) [
    | inl f ↦ elim (Bool-cases (better a c d)) [ inl g ↦ rw (e, f, g) | inr g ↦ rw (e, f, g) ]
    | inr f ↦ elim (Bool-cases (better a b d)) [ inl g ↦ rw (e, f, g) | inr g ↦ rw (e, f, g) ]
  ]
  | inr e ↦ elim (Bool-cases (better a a c)) [
    | inl f ↦ elim (Bool-cases (better a c d)) [ inl g ↦ rw (e, f, g) | inr g ↦ rw (e, f, g) ]
    | inr f ↦ elim (Bool-cases (better a a d)) [ inl g ↦ rw (e, f, g) | inr g ↦ rw (e, f, g) ]
  ]
])
find_taker-winner _ t n a b c d = simp place-seat_text (elim (Bool-cases (better a a b)) [
  | inl e ↦ elim (Bool-cases (better a b c)) [
    | inl f ↦ elim (Bool-cases (better a c d)) [ inl g ↦ rw (e, f, g) | inr g ↦ rw (e, f, g) ]
    | inr f ↦ elim (Bool-cases (better a b d)) [ inl g ↦ rw (e, f, g) | inr g ↦ rw (e, f, g) ]
  ]
  | inr e ↦ elim (Bool-cases (better a a c)) [
    | inl f ↦ elim (Bool-cases (better a c d)) [ inl g ↦ rw (e, f, g) | inr g ↦ rw (e, f, g) ]
    | inr f ↦ elim (Bool-cases (better a a d)) [ inl g ↦ rw (e, f, g) | inr g ↦ rw (e, f, g) ]
  ]
])

-- The card at index `j` has the first card's color, and no card of that color is higher.
pub record IsBest (a b c d : Card) (j : ℕ) : Type 0 where
  pub in_range : j < 4
  pub follows : (get_or (a ∷ b ∷ c ∷ d ∷ []) j a).suit ≡ a.suit
  pub highest :
      All
        (λ (x : Card).
          x.suit ≡ a.suit → rank_value x.rank ≤ rank_value (get_or (a ∷ b ∷ c ∷ d ∷ []) j a).rank)
        (a ∷ b ∷ c ∷ d ∷ [])

pub winner-IsBest : (a b c d : Card) → IsBest a b c d (winner a b c d)
unfolding winner
winner-IsBest a b c d = elim (Bool-cases (better a a b)) [
  | inl e ↦ elim (Bool-cases (better a b c)) [
    | inl f ↦ elim (Bool-cases (better a c d)) [
      | inl g ↦
          rw (e, f, g)
            (ground (arith, better_wins a a b e, better_wins a b c f, better_wins a c d g))
      | inr g ↦
          rw (e, f, g)
            (ground (arith, better_wins a a b e, better_wins a b c f, better_loses a c d g))
    ]
    | inr f ↦ elim (Bool-cases (better a b d)) [
      | inl g ↦
          rw (e, f, g)
            (ground (arith, better_wins a a b e, better_loses a b c f, better_wins a b d g))
      | inr g ↦
          rw (e, f, g)
            (ground (arith, better_wins a a b e, better_loses a b c f, better_loses a b d g))
    ]
  ]
  | inr e ↦ elim (Bool-cases (better a a c)) [
    | inl f ↦ elim (Bool-cases (better a c d)) [
      | inl g ↦
          rw (e, f, g)
            (ground (arith, better_loses a a b e, better_wins a a c f, better_wins a c d g))
      | inr g ↦
          rw (e, f, g)
            (ground (arith, better_loses a a b e, better_wins a a c f, better_loses a c d g))
    ]
    | inr f ↦ elim (Bool-cases (better a a d)) [
      | inl g ↦
          rw (e, f, g)
            (ground (arith, better_loses a a b e, better_loses a a c f, better_wins a a d g))
      | inr g ↦
          rw (e, f, g)
            (ground (arith, better_loses a a b e, better_loses a a c f, better_loses a a d g))
    ]
  ]
]
