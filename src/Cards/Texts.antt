-- ===== src/Cards/Texts.antt =====
-- The texts of cards are a prefix code: no card's text begins another's.
use kierki_sik.Prelude.{
  ℕ, ◌≡◌, refl, ap, sym, ◌∙◌, [], ◌∷◌, ◌++◌, Bytes, codes, ◌==◌, if◌then◌else◌, arith, subst,
  append_assoc, ◌≤◌, length, last_char, ◌⊎◌, inl, inr, ◌≢◌,
}
use mathlib.Core.Path.{ap₂}
use kierki_sik.Cards.{
  Card, Rank, Suit, card_text, rank_text, suit_char, clubs, diamonds, hearts, spades, two, three,
  four, five, six, seven, eight, nine, ten, jack, queen, king, ace,
}

-- The first character of a figure, and the figure that begins so.
unfoldable pub rank_char : Rank → ℕ
rank_char two = b'2'
rank_char three = b'3'
rank_char four = b'4'
rank_char five = b'5'
rank_char six = b'6'
rank_char seven = b'7'
rank_char eight = b'8'
rank_char nine = b'9'
rank_char ten = b'1'
rank_char jack = b'J'
rank_char queen = b'Q'
rank_char king = b'K'
rank_char ace = b'A'

rank_tail : Rank → Bytes
rank_tail ten = codes "0"
rank_tail _ = []

rank_of : ℕ → Rank
rank_of c =
    if c == b'2'
    then two
    else if c == b'3'
    then three
    else if c == b'4'
    then four
    else if c == b'5'
    then five
    else if c == b'6'
    then six
    else if c == b'7'
    then seven
    else if c == b'8'
    then eight
    else if c == b'9'
    then nine
    else if c == b'1'
    then ten
    else if c == b'J'
    then jack
    else if c == b'Q'
    then queen
    else if c == b'K'
    then king
    else ace

rank_of-rank_char : (r : Rank) → rank_of (rank_char r) ≡ r
unfolding rank_of rank_char
rank_of-rank_char two = refl
rank_of-rank_char _ = refl

suit_of : ℕ → Suit
suit_of c =
    if c == b'C'
    then clubs
    else if c == b'D'
    then diamonds
    else if c == b'H'
    then hearts
    else spades

suit_of-suit_char : (u : Suit) → suit_of (suit_char u) ≡ u
unfolding suit_of
suit_of-suit_char clubs = refl
suit_of-suit_char _ = refl

pub suit_char-injective : (u v : Suit) → suit_char u ≡ suit_char v → u ≡ v
suit_char-injective u v e = sym (suit_of-suit_char u) ∙ ap suit_of e ∙ suit_of-suit_char v

rank_text-head : (r : Rank) (s : Bytes) → rank_text r ++ s ≡ rank_char r ∷ (rank_tail r ++ s)
unfolding rank_char rank_tail
rank_text-head two s = refl
rank_text-head _ s = refl

same_rank : (r r' : Rank) (s s' : Bytes) → rank_text r ++ s ≡ rank_text r' ++ s' → r ≡ r'
same_rank r r' s s' e =
    let k : rank_char r ≡ rank_char r' = cc (rank_text-head r s, rank_text-head r' s', e) in
    sym (rank_of-rank_char r) ∙ ap rank_of k ∙ rank_of-rank_char r'

rank_cancel : (r : Rank) (s s' : Bytes) → rank_text r ++ s ≡ rank_text r ++ s' → s ≡ s'
rank_cancel two s s' e = cc
rank_cancel _ s s' e = cc

abbrev card_of : Rank → Suit → Card
card_of r u = record { rank = r; suit = u }

-- Two texts that begin with a card's text begin with the same card.
pub card_text_prefix : (c d : Card) (s z : Bytes) → card_text c ++ s ≡ card_text d ++ z → c ≡ d
card_text_prefix c d s z e =
    let e' : rank_text c.rank ++ suit_char c.suit ∷ s ≡ rank_text d.rank ++ suit_char d.suit ∷ z =
      sym (append_assoc (rank_text c.rank) (suit_char c.suit ∷ []) s)
      ∙ e
      ∙ append_assoc (rank_text d.rank) (suit_char d.suit ∷ []) z in
    let same : c.rank ≡ d.rank = same_rank c.rank d.rank _ _ e' in
    let rest : suit_char c.suit ∷ s ≡ suit_char d.suit ∷ z = rank_cancel d.rank _ _ (
      subst (λ r. rank_text r ++ suit_char c.suit ∷ s ≡ rank_text d.rank ++ suit_char d.suit ∷ z)
        same e') in
    ap₂ card_of same (suit_char-injective c.suit d.suit (cc rest))

pub card_text-injective : (c d : Card) → card_text c ≡ card_text d → c ≡ d
card_text-injective c d e = card_text_prefix c d [] [] (ap (λ l. l ++ []) e)

rank_text-ne-nil : (r : Rank) (s : Bytes) → rank_text r ++ s ≢ []
rank_text-ne-nil r s e = cc (rank_text-head r s, e)

pub card_text-ne-nil : (c : Card) → card_text c ≢ []
card_text-ne-nil c = rank_text-ne-nil c.rank (suit_char c.suit ∷ [])

abbrev pub IsCard : Bytes → Type 0
IsCard t = (c : Card) × (t ≡ card_text c)

not_suit_alone : (a : ℕ) (q : Rank) (u : Suit) → a ∷ [] ≡ rank_text q ++ suit_char u ∷ [] → ⊥
not_suit_alone a two u h = cc
not_suit_alone a _ u h = cc

not_from_zero : (s : Bytes) (q : Rank) (t : Bytes) → b'0' ∷ s ≡ rank_text q ++ t → ⊥
not_from_zero s two t h = ground arith
not_from_zero s _ t h = ground arith

tail_cases :
    (p : Rank) (u : Suit) (x : ℕ) (r : Bytes)
    → rank_text p ++ suit_char u ∷ [] ≡ x ∷ r
    → (r ≡ suit_char u ∷ []) ⊎ (r ≡ b'0' ∷ suit_char u ∷ [])
tail_cases ten u x r e = inr (cc)
tail_cases _ u x r e = inl (cc)

-- The text of a card without its first character is no card.
pub tail-not-IsCard : (c : Card) (x : ℕ) (r : Bytes) → card_text c ≡ x ∷ r → ¬ IsCard r
tail-not-IsCard c x r e (d, k) = elim (tail_cases c.rank c.suit x r e) [
  | inl h ↦ not_suit_alone _ d.rank d.suit (sym h ∙ k)
  | inr h ↦ not_from_zero _ d.rank _ (sym h ∙ k)
]

-- Nor is the text of a card behind one more character.
pub longer-not-IsCard : (c : Card) (x : ℕ) → ¬ IsCard (x ∷ card_text c)
longer-not-IsCard c x (d, k) = tail-not-IsCard d x (card_text c) (sym k) (c, refl)

rank_text-length : (r : Rank) (u : Suit) → 2 ≤ length (rank_text r ++ suit_char u ∷ [])
rank_text-length two u = omega arith
rank_text-length _ u = omega arith

pub card_text-length : (c : Card) → 2 ≤ length (card_text c)
card_text-length c = rank_text-length c.rank c.suit

last_char-rank_text :
    (r : Rank) (u : Suit) → last_char (rank_text r ++ suit_char u ∷ []) ≡ suit_char u
unfolding last_char
last_char-rank_text two u = refl
last_char-rank_text _ u = refl

pub last_char-card_text : (c : Card) → last_char (card_text c) ≡ suit_char c.suit
last_char-card_text c = last_char-rank_text c.rank c.suit
