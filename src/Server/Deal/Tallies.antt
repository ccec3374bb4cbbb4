-- ===== src/Server/Deal/Tallies.antt =====
-- Maps of scores with the four seats.
use kierki_sik.Prelude.{
  ℕ, ◌+◌, ◌≤◌, ◌≡◌, refl, ap, ◌∙◌, List, [], ◌∷◌, Bytes, codes, arith, same, before,
}
use kierki_sik.Prelude.Int.{ℤ, pos, ◌+ℤ◌, int_laws}
use kierki_sik.StdMap.{at_or, lookup, assign}
use kierki_sik.Seats.{Seat, north, east, south, west, seat_text}
use kierki_sik.Server.Deal.{add_to, add_scores, copy_scores}

-- The map with the four seats, in the order of its keys, and the sum of its values.
abbrev pub tally : (Seat → ℤ) → List (Bytes × ℤ)
tally f =
    (codes "E", f east) ∷ (codes "N", f north) ∷ (codes "S", f south) ∷ (codes "W", f west) ∷ []

abbrev pub sum : (Seat → ℤ) → ℤ
sum f = f east +ℤ f north +ℤ f south +ℤ f west

-- The scores with `v` more for one seat.
abbrev pub bump : Seat → ℤ → (Seat → ℤ) → Seat → ℤ
bump north v f north = f north +ℤ v
bump east v f east = f east +ℤ v
bump south v f south = f south +ℤ v
bump west v f west = f west +ℤ v
bump _ v f y = f y

pub add_to-tally :
    (x : Seat) (v : ℤ) (f : Seat → ℤ) → add_to (seat_text x) v (tally f) ≡ tally (bump x v f)
unfolding add_to at_or lookup assign same before
add_to-tally north v f = refl
add_to-tally _ v f = refl

pub sum-bump : (x : Seat) (v : ℤ) (f : Seat → ℤ) → sum (bump x v f) ≡ sum f +ℤ v
sum-bump north v f = grind int_laws
sum-bump _ v f = grind int_laws

pub add_scores-tally : (f g : Seat → ℤ) → add_scores (tally f) (tally g) ≡ tally (λ x. g x +ℤ f x)
unfolding add_scores
add_scores-tally f g =
    simp (add_to-tally east, add_to-tally north, add_to-tally south, add_to-tally west)

pub copy_scores-tally : (f g : Seat → ℤ) → copy_scores (tally f) (tally g) ≡ tally f
unfolding copy_scores assign same before
copy_scores-tally f g = refl

-- `b` is `a` with some points more.
abbrev pub Grown : ℤ → ℤ → Type 0
Grown a b = (n : ℕ) × (b ≡ a +ℤ pos n)

pub +ℤ-zero : (a : ℤ) → a ≡ a +ℤ pos 0
+ℤ-zero a = grind int_laws

pub +ℤ-later : (a : ℤ) (m n : ℕ) → a +ℤ pos m +ℤ pos n ≡ a +ℤ pos (m + n)
+ℤ-later a m n = grind int_laws

pub bump-Grown : (y : Seat) (v : ℕ) (f : Seat → ℤ) (x : Seat) → Grown (f x) (bump y (pos v) f x)
bump-Grown north v f north = (v, refl)
bump-Grown east v f east = (v, refl)
bump-Grown south v f south = (v, refl)
bump-Grown west v f west = (v, refl)
bump-Grown _ v f x = (0, +ℤ-zero (f x))

pub trans-Grown : (a b c : ℤ) → Grown a b → Grown b c → Grown a c
trans-Grown a b c (m, e) (n, d) = (m + n, d ∙ ap (λ z. z +ℤ pos n) e ∙ +ℤ-later a m n)

pub from_nothing : (n : ℕ) → pos 0 +ℤ pos 0 +ℤ pos 0 +ℤ pos 0 +ℤ pos n ≡ pos n
unfolding ◌+ℤ◌
from_nothing n = ground arith

pub points : (a : ℤ) → Grown (pos 0) a → (n : ℕ) × (a ≡ pos n)
unfolding ◌+ℤ◌
points a (n, e) = (n, ground (arith, e))

pub four_points : (a b c d n : ℕ) → pos a +ℤ pos b +ℤ pos c +ℤ pos d ≡ pos n → a + b + c + d ≡ n
unfolding ◌+ℤ◌
four_points a b c d n e = ground (arith, e)

-- Four shares without a debt are at most the whole.
pub shares :
    (f : Seat → ℤ) (whole : ℕ)
    → ((y : Seat) → (n : ℕ) × (f y ≡ pos n))
    → sum f ≡ pos whole
    → (y : Seat) → (n : ℕ) × (f y ≡ pos n) × (n ≤ whole)
shares f whole parts e = share
  where
    all : (parts east).0 + (parts north).0 + (parts south).0 + (parts west).0 ≡ whole
    all =
        four_points (parts east).0 (parts north).0 (parts south).0 (parts west).0 whole
          (rw⁻¹ ((parts east).1, (parts north).1, (parts south).1, (parts west).1) e)

    share : (y : Seat) → (n : ℕ) × (f y ≡ pos n) × (n ≤ whole)
    share north = ((parts north).0, (parts north).1, omega (arith, all))
    share east = ((parts east).0, (parts east).1, omega (arith, all))
    share south = ((parts south).0, (parts south).1, omega (arith, all))
    share west = ((parts west).0, (parts west).1, omega (arith, all))
