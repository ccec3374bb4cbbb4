-- ===== src/Points/Faces.antt =====
-- The calculator on the texts of four cards: its arrays hold their colors and figures by place.
use kierki_sik.Prelude.{ℕ, ◌≡◌, refl, List, [], ◌∷◌, ◌++◌, last_char, same, some, Bytes, map}
use kierki_sik.Decimal.{stoi}
use kierki_sik.Cards.{Card, Rank, Suit, card_text, rank_text, rank_value, suit_char, two}
use kierki_sik.Seats.{Seat, north, east, south, west, seat_text, place-seat_text}
use kierki_sik.Points.{Calculator, card_color, card_figure, new_calculator}

pub card_color-card_text :
    (r : Rank) (u : Suit) → card_color (rank_text r ++ suit_char u ∷ []) ≡ some (suit_char u ∷ [])
unfolding card_color last_char
card_color-card_text two u = refl
card_color-card_text _ u = refl

pub card_figure-card_text :
    (r : Rank) (u : Suit) → card_figure (rank_text r ++ suit_char u ∷ []) ≡ some (rank_value r)
unfolding card_figure same stoi
card_figure-card_text two u = refl
card_figure-card_text _ u = refl

abbrev pub face_color : Card → Bytes
face_color c = suit_char c.suit ∷ []

abbrev pub face_figure : Card → ℕ
face_figure c = rank_value c.rank

-- The four values by place, when the first of them belongs to the starter.
abbrev pub around {ℓ} : {A : Type ℓ} → Seat → A → A → A → A → List A
around north a b c d = a ∷ b ∷ c ∷ d ∷ []
around east a b c d = d ∷ a ∷ b ∷ c ∷ []
around south a b c d = c ∷ d ∷ a ∷ b ∷ []
around west a b c d = b ∷ c ∷ d ∷ a ∷ []

abbrev pub seated : Seat → ℕ → ℕ → Card → Card → Card → Card → Calculator
seated s t n a b c d = record {
  trick_type = t;
  trick = n;
  starter = seat_text s;
  colors = around s (face_color a) (face_color b) (face_color c) (face_color d);
  figures = around s (face_figure a) (face_figure b) (face_figure c) (face_figure d);
}

pub new_calculator-seated :
    (s : Seat) (t n : ℕ) (a b c d : Card)
    → new_calculator (map card_text (a ∷ b ∷ c ∷ d ∷ [])) (seat_text s) t n
      ≡ some (seated s t n a b c d)
unfolding new_calculator
new_calculator-seated north t n a b c d =
    simp (card_color-card_text, card_figure-card_text, place-seat_text)
new_calculator-seated _ t n a b c d =
    simp (card_color-card_text, card_figure-card_text, place-seat_text)
