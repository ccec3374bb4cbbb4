-- ===== src/Messages/Words.antt =====
-- What the parts of the regular expressions match: literals, seats, cards, trick numbers.
use kierki_sik.Prelude.{
  ℕ, ◌≡◌, ◌↔◌, ◌⊎◌, inl, inr, refl, ap, ◌∙◌, List, [], ◌∷◌, ◌++◌, true, Bytes, codes, arith, map,
}
use kierki_sik.Cards.{
  Card, Rank, Suit, card_text, rank_text, suit_char, clubs, diamonds, hearts, spades, two, three,
  four, five, six, seven, eight, nine, ten, jack, queen, king, ace,
}
use kierki_sik.Cards.Texts.{rank_char}
use kierki_sik.Seats.{Seat, seat_text, north, east, south, west}
use kierki_sik.Regex.{cls, has, Matches, literal, seat_re, suit_re, figure_re, card_re}
use mathlib.Core.Path.{ap₂}

pub has-cons : (c d : ℕ) (cs : Bytes) → has c (d ∷ cs) ≡ true → (c ≡ d) ⊎ (has c cs ≡ true)
has-cons c d cs h = ground arith

pub has-one : (c d : ℕ) → has c (d ∷ []) ≡ true → c ≡ d
has-one c d h = ground arith

-- A bracket that lists the characters of some things names one of them.
has-map :
    {A : Type 0} (f : A → ℕ) (items : List A) (c : ℕ)
    → has c (map f items) ≡ true
    → (a : A) × (c ≡ f a)
has-map f [] c h = cc
has-map f (a ∷ items) c h = elim (has-cons c (f a) (map f items) h) [
  | inl e ↦ (a, e)
  | inr k ↦ has-map f items c k
]

-- One character of a bracket that lists the characters of some things.
bracket :
    {A : Type 0} (f : A → ℕ) (items : List A) (s : Bytes)
    → Matches (cls (map f items)) s
    → (a : A) × (s ≡ f a ∷ [])
bracket f items s (c, e, h) = let (a, k) = has-map f items c h in (a, e ∙ ap (λ d. d ∷ []) k)

pub Matches-literal : (w s : Bytes) → Matches (literal w) s ↔ (s ≡ w)
Matches-literal [] s = ((λ m. m), (λ e. e))
Matches-literal (c ∷ w) s = (
  (λ m. read m (Matches-literal w m.1).0),
  (λ e. (c ∷ [], w, e, (c, refl, ground arith), (Matches-literal w w).1 refl)),
)
  where
    read : (m : Matches (literal (c ∷ w)) s) → (Matches (literal w) m.1 → m.1 ≡ w) → s ≡ c ∷ w
    read (x, y, e, (d, ed, h), n) rest = e ∙ rw (ed, has-one d c h, rest n)

seat_char : Seat → ℕ
seat_char north = b'N'
seat_char east = b'E'
seat_char south = b'S'
seat_char west = b'W'

seat_char-seat_text : (x : Seat) → seat_char x ∷ [] ≡ seat_text x
unfolding seat_char
seat_char-seat_text north = refl
seat_char-seat_text _ = refl

pub Matches-seat_re : (s : Bytes) → Matches seat_re s ↔ ((x : Seat) × (s ≡ seat_text x))
unfolding seat_char
Matches-seat_re s = (
  (λ m.
      let (x, e) = bracket seat_char (north ∷ east ∷ south ∷ west ∷ []) s m in
      (x, e ∙ seat_char-seat_text x)),
  (λ h. write h.0 h.1),
)
  where
    write : (x : Seat) → s ≡ seat_text x → Matches seat_re s
    write north e = (b'N', e, refl)
    write east e = (b'E', e, refl)
    write south e = (b'S', e, refl)
    write west e = (b'W', e, refl)

suit_read : (s : Bytes) → Matches suit_re s → (u : Suit) × (s ≡ suit_char u ∷ [])
suit_read s m = bracket suit_char (clubs ∷ diamonds ∷ hearts ∷ spades ∷ []) s m

suit_matched : (u : Suit) → Matches suit_re (suit_char u ∷ [])
suit_matched clubs = (b'C', refl, refl)
suit_matched diamonds = (b'D', refl, refl)
suit_matched hearts = (b'H', refl, refl)
suit_matched spades = (b'S', refl, refl)

-- The figures of one character.
short_figure : Rank → Rank
short_figure ten = two
short_figure r = r

short_figure-text : (r : Rank) → rank_char (short_figure r) ∷ [] ≡ rank_text (short_figure r)
unfolding rank_char short_figure
short_figure-text two = refl
short_figure-text _ = refl

one_figure :
    (rs : List Rank) (s : Bytes)
    → Matches (cls (map (λ r. rank_char (short_figure r)) rs)) s
    → (r : Rank) × (s ≡ rank_text r)
one_figure rs s m =
    let (r, e) = bracket (λ r. rank_char (short_figure r)) rs s m in
    (short_figure r, e ∙ short_figure-text r)

figure_read : (s : Bytes) → Matches figure_re s → (r : Rank) × (s ≡ rank_text r)
unfolding rank_char short_figure
figure_read s (inl m) = one_figure (two ∷ three ∷ four ∷ five ∷ six ∷ seven ∷ eight ∷ nine ∷ []) s m
figure_read s (inr (inl (x, y, e, (c, ex, h), (d, ey, k)))) =
    (ten, e ∙ rw (ex, ey, has-one c b'1' h, has-one d b'0' k))
figure_read s (inr (inr (inl m))) = one_figure (jack ∷ []) s m
figure_read s (inr (inr (inr (inl m)))) = one_figure (queen ∷ []) s m
figure_read s (inr (inr (inr (inr (inl m))))) = one_figure (king ∷ []) s m
figure_read s (inr (inr (inr (inr (inr m))))) = one_figure (ace ∷ []) s m

figure_matched : (r : Rank) → Matches figure_re (rank_text r)
figure_matched two = inl (b'2', refl, refl)
figure_matched three = inl (b'3', refl, refl)
figure_matched four = inl (b'4', refl, refl)
figure_matched five = inl (b'5', refl, refl)
figure_matched six = inl (b'6', refl, refl)
figure_matched seven = inl (b'7', refl, refl)
figure_matched eight = inl (b'8', refl, refl)
figure_matched nine = inl (b'9', refl, refl)
figure_matched ten = inr (inl (codes "1", codes "0", refl, (b'1', refl, refl), (b'0', refl, refl)))
figure_matched jack = inr (inr (inl (b'J', refl, refl)))
figure_matched queen = inr (inr (inr (inl (b'Q', refl, refl))))
figure_matched king = inr (inr (inr (inr (inl (b'K', refl, refl)))))
figure_matched ace = inr (inr (inr (inr (inr (b'A', refl, refl)))))

pub Matches-card_re : (s : Bytes) → Matches card_re s ↔ ((c : Card) × (s ≡ card_text c))
Matches-card_re s = (
  (λ m. read m),
  (λ h. (
    rank_text h.0.rank,
    suit_char h.0.suit ∷ [],
    h.1,
    figure_matched h.0.rank,
    suit_matched h.0.suit,
  )),
)
  where
    read : Matches card_re s → (c : Card) × (s ≡ card_text c)
    read (x, y, e, mx, my) =
        let (r, er) = figure_read x mx in
        let (u, eu) = suit_read y my in
        (record { rank = r; suit = u }, e ∙ ap₂ (λ a b. a ++ b) er eu)
