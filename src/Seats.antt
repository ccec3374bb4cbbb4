-- ===== src/Seats.antt =====
-- The four seats and the map from a seat's name to its place (points_calculator.cpp, serwer.cpp).
use kierki_sik.Prelude.{ℕ, zero, suc, List, [], ◌∷◌, Bytes, codes, same, get_or, ◌≡◌, refl}
use kierki_sik.StdMap.{at_or, lookup}

pub data Seat : Type 0 where
  north east south west : Seat

abbrev pub seat_text : Seat → Bytes
seat_text north = codes "N"
seat_text east = codes "E"
seat_text south = codes "S"
seat_text west = codes "W"

-- `array<string, 4> seats`.
abbrev pub seats : List Bytes
seats = codes "N" ∷ codes "E" ∷ codes "S" ∷ codes "W" ∷ []

-- `seats[i]` for an index below four.
abbrev pub seat_at : ℕ → Bytes
seat_at i = get_or seats i []

-- The entries of `map<string, int16_t> seats_mapping`, in the order of the keys.
abbrev pub seats_mapping : List (Bytes × ℕ)
seats_mapping = (codes "E", 1) ∷ (codes "N", 0) ∷ (codes "S", 2) ∷ (codes "W", 3) ∷ []

-- `seats_mapping[seat]`; another key reads 0.
unfoldable pub place : Bytes → ℕ
unfolding at_or lookup
place seat = at_or 0 seat seats_mapping

-- The place of a seat in playing order.
abbrev pub seat_place : Seat → ℕ
seat_place north = 0
seat_place east = 1
seat_place south = 2
seat_place west = 3

-- The player on the left, and the one who plays `i` turns after `s`.
abbrev pub left_of : Seat → Seat
left_of north = east
left_of east = south
left_of south = west
left_of west = north

abbrev pub turns_after : ℕ → Seat → Seat
turns_after zero s = s
turns_after (suc i) s = turns_after i (left_of s)

pub place-seat_text : (s : Seat) → place (seat_text s) ≡ seat_place s
unfolding place same
place-seat_text north = refl
place-seat_text east = refl
place-seat_text south = refl
place-seat_text west = refl
