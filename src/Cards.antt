-- ===== src/Cards.antt =====
-- The cards of the game and their texts in messages and files: `10C`, `JD`, `AS`.
pub mod Texts
use kierki_sik.Prelude.{ℕ, List, [], ◌∷◌, ◌++◌, Bytes, codes, map}

pub data Suit : Type 0 where
  clubs diamonds hearts spades : Suit

pub data Rank : Type 0 where
  two three four five six seven eight nine ten jack queen king ace : Rank

pub record Card : Type 0 where
  pub rank : Rank
  pub suit : Suit

abbrev pub suit_char : Suit → ℕ
suit_char clubs = b'C'
suit_char diamonds = b'D'
suit_char hearts = b'H'
suit_char spades = b'S'

abbrev pub rank_text : Rank → Bytes
rank_text two = codes "2"
rank_text three = codes "3"
rank_text four = codes "4"
rank_text five = codes "5"
rank_text six = codes "6"
rank_text seven = codes "7"
rank_text eight = codes "8"
rank_text nine = codes "9"
rank_text ten = codes "10"
rank_text jack = codes "J"
rank_text queen = codes "Q"
rank_text king = codes "K"
rank_text ace = codes "A"

abbrev pub card_text : Card → Bytes
card_text c = rank_text c.rank ++ suit_char c.suit ∷ []

-- The figures 2 to 14.
abbrev pub rank_value : Rank → ℕ
rank_value two = 2
rank_value three = 3
rank_value four = 4
rank_value five = 5
rank_value six = 6
rank_value seven = 7
rank_value eight = 8
rank_value nine = 9
rank_value ten = 10
rank_value jack = 11
rank_value queen = 12
rank_value king = 13
rank_value ace = 14

abbrev pub ranks : List Rank
ranks =
    two ∷ three ∷ four ∷ five ∷ six ∷ seven ∷ eight ∷ nine ∷ ten ∷ jack ∷ queen ∷ king ∷ ace ∷ []

abbrev pub of_suit : Suit → List Card
of_suit u = map (λ r. record { rank = r; suit = u }) ranks

-- All fifty-two cards.
abbrev pub deck : List Card
deck = of_suit clubs ++ of_suit diamonds ++ of_suit hearts ++ of_suit spades
