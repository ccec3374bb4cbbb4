-- ===== src/Points.antt =====
-- points_calculator.h and points_calculator.cpp: who takes a trick and what it costs.
-- The arrays are lists of four; an index out of range, an empty card and a figure that `stoi`
-- refuses are `none`.
pub mod Faces
pub mod Taker
pub mod Cost
pub mod Deal
use kierki_sik.Prelude.{
  ℕ, zero, suc, ◌+◌, ◌-◌, ◌%◌, ◌≡◌, refl, List, [], ◌∷◌, Bool, true, false, ◌&&◌, ◌||◌, Option,
  none, some, Bytes, codes, same, last_char, ltb, ◌==◌, if◌then◌else◌, length, take, set, get_or,
  arith,
}
use kierki_sik.Prelude.Int.{ℤ, pos, negsuc, ◌+ℤ◌}
use kierki_sik.Decimal.{stoi}
use kierki_sik.Seats.{place, seat_at}

infixl 5 ◌>>=◌
abbrev pub ◌>>=◌ {ℓ κ} : {A : Type ℓ} {B : Type κ} → Option A → (A → Option B) → Option B
none >>= f = none
some a >>= f = f a

pub record Calculator : Type 0 where
  pub trick_type : ℕ
  pub trick : ℕ
  pub starter : Bytes
  pub colors : List Bytes
  pub figures : List ℕ

-- The color of a card: its last character as a text.
unfoldable pub card_color : Bytes → Option Bytes
card_color [] = none
card_color (c ∷ s) = some (last_char (c ∷ s) ∷ [])

-- A card without its last character.
abbrev figure_text : Bytes → Bytes
figure_text c = take (length c - 1) c

unfoldable pub figure_value : Bytes → Option ℕ
figure_value f =
    if same f (codes "J")
    then some 11
    else if same f (codes "Q")
    then some 12
    else if same f (codes "K")
    then some 13
    else if same f (codes "A")
    then some 14
    else stoi f

unfoldable pub card_figure : Bytes → Option ℕ
unfolding figure_value
card_figure [] = none
card_figure (c ∷ s) = figure_value (figure_text (c ∷ s))

-- The constructor's loop from card `i` on; `beginning` is the starter's place.
fill : ℕ → ℕ → List Bytes → Calculator → Option Calculator
fill beginning i [] k = some k
fill beginning i (c ∷ cs) k = do
  color ← card_color c
  figure ← card_figure c
  fill beginning (i + 1) cs (record k {
    colors = set k.colors ((beginning + i) % 4) color;
    figures = set k.figures ((beginning + i) % 4) figure;
  })

-- The constructor reads the first four cards; the figures are not set before.
unfoldable pub new_calculator : List Bytes → Bytes → ℕ → ℕ → Option Calculator
unfolding fill
new_calculator (c0 ∷ c1 ∷ c2 ∷ c3 ∷ _) starter trick_type trick =
    fill (place starter) 0 (c0 ∷ c1 ∷ c2 ∷ c3 ∷ []) (record {
      trick_type = trick_type;
      trick = trick;
      starter = starter;
      colors = [] ∷ [] ∷ [] ∷ [] ∷ [];
      figures = 0 ∷ 0 ∷ 0 ∷ 0 ∷ [];
    })
new_calculator _ starter trick_type trick = none

abbrev pub color_at : Calculator → ℕ → Bytes
color_at k i = get_or k.colors i []

abbrev pub figure_at : Calculator → ℕ → ℕ
figure_at k i = get_or k.figures i 0

-- The loop of `find_taker`: rounds left, round `i`, the best figure and its seat so far.
taker_loop : Calculator → ℕ → ℕ → ℕ → Bytes → Bytes
taker_loop k zero i max_figure taker = taker
taker_loop k (suc n) i max_figure taker =
    let here = (place k.starter + i) % 4 in
    let better =
      same (color_at k here) (color_at k (place k.starter)) && ltb max_figure (figure_at k here) in
    taker_loop k n (i + 1) (if better then figure_at k here else max_figure)
      (if better then seat_at here else taker)

unfoldable pub find_taker : Calculator → Bytes
unfolding taker_loop
find_taker k = taker_loop k 3 1 (figure_at k (place k.starter)) k.starter

-- A loop over the four places that adds up points.
abbrev sum_places : (ℕ → ℕ) → ℕ
sum_places f = f 0 + f 1 + f 2 + f 3

unfoldable pub no_tricks : Calculator → ℕ
no_tricks k = 1

unfoldable pub no_hearts : Calculator → ℕ
no_hearts k = sum_places λ i. if same (color_at k i) (codes "H") then 1 else 0

unfoldable pub no_queens : Calculator → ℕ
no_queens k = sum_places λ i. if figure_at k i == 12 then 5 else 0

unfoldable pub no_misters : Calculator → ℕ
no_misters k = sum_places λ i. if figure_at k i == 11 || figure_at k i == 13 then 2 else 0

unfoldable pub no_hearts_king : Calculator → ℕ
no_hearts_king k =
    sum_places λ i. if same (color_at k i) (codes "H") && figure_at k i == 13 then 18 else 0

unfoldable pub no_seventh_last_trick : Calculator → ℕ
no_seventh_last_trick k = sum_places λ i. if k.trick == 7 || k.trick == 13 then 10 else 0

unfoldable pub bandit : Calculator → ℕ
bandit k =
    no_tricks k
    + no_hearts k
    + no_queens k
    + no_misters k
    + no_hearts_king k
    + no_seventh_last_trick k

-- The seat that takes the trick and its points; an unknown type of deal gives -1.
unfoldable pub calculate_points : Calculator → Bytes × ℤ
calculate_points k =
    let taker = find_taker k in
    if k.trick_type == 1
    then (taker, pos (no_tricks k))
    else if k.trick_type == 2
    then (taker, pos (no_hearts k))
    else if k.trick_type == 3
    then (taker, pos (no_queens k))
    else if k.trick_type == 4
    then (taker, pos (no_misters k))
    else if k.trick_type == 5
    then (taker, pos (no_hearts_king k))
    else if k.trick_type == 6
    then (taker, pos (no_seventh_last_trick k))
    else if k.trick_type == 7
    then (taker, pos (bandit k))
    else (taker, negsuc 0)

-- What `run_deal` asks of the calculator once four cards lie on the table.
unfoldable pub trick_result : List Bytes → Bytes → ℕ → ℕ → Option (Bytes × ℤ)
trick_result played_cards starter trick_type trick = do
  k ← new_calculator played_cards starter trick_type trick
  some (calculate_points k)
