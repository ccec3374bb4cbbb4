-- ===== src/Messages/Repeats.antt =====
-- What repetitions of a card match: the texts of so many cards.
use kierki_sik.Prelude.{
  ℕ, zero, suc, ◌≤◌, ◌≡◌, ◌↔◌, inl, inr, refl, ap, ◌∙◌, List, [], ◌∷◌, ◌++◌, Bytes, arith, length,
  map,
}
use kierki_sik.Cards.{Card, card_text}
use kierki_sik.Regex.{Matches, times, up_to, card_re}
use mathlib.Core.Path.{ap₂}
use kierki_sik.Messages.{concat}
use kierki_sik.Messages.Words.{Matches-card_re}

-- A run of cards.
abbrev pub cards_text : List Card → Bytes
cards_text cs = concat (map card_text cs)

pub Matches-times :
    (n : ℕ) (s : Bytes)
    → Matches (times n card_re) s ↔ ((cs : List Card) × (length cs ≡ n) × (s ≡ cards_text cs))
Matches-times zero s = ((λ m. ([], refl, m)), (λ h. none_left h.0 h.1 h.2))
  where
    none_left : (cs : List Card) → length cs ≡ 0 → s ≡ cards_text cs → s ≡ []
    none_left [] l e = e
    none_left (c ∷ cs) l e = absurd (omega arith)
Matches-times (suc n) s = (
  (λ m. read (λ y. (Matches-times n y).0) m),
  (λ h. write (λ y. (Matches-times n y).1) h.0 h.1 h.2),
)
  where
    read :
        ((y : Bytes)
          → Matches (times n card_re) y
          → (cs : List Card) × (length cs ≡ n) × (y ≡ cards_text cs))
        → Matches (times (suc n) card_re) s
        → (cs : List Card) × (length cs ≡ suc n) × (s ≡ cards_text cs)
    read rest (x, y, e, mx, my) =
        let (c, ec) = (Matches-card_re x).0 mx in
        let (cs, l, es) = rest y my in (c ∷ cs, ap suc l, e ∙ ap₂ (λ u v. u ++ v) ec es)

    write :
        ((y : Bytes)
          → ((cs : List Card) × (length cs ≡ n) × (y ≡ cards_text cs))
          → Matches (times n card_re) y)
        → (cs : List Card) → length cs ≡ suc n
        → s ≡ cards_text cs
        → Matches (times (suc n) card_re) s
    write rest [] l e = absurd (omega arith)
    write rest (c ∷ cs) l e = (
      card_text c,
      cards_text cs,
      e,
      (Matches-card_re (card_text c)).1 (c, refl),
      rest (cards_text cs) (cs, omega arith, refl),
    )

pub Matches-up_to :
    (n : ℕ) (s : Bytes)
    → Matches (up_to n card_re) s ↔ ((cs : List Card) × (length cs ≤ n) × (s ≡ cards_text cs))
Matches-up_to zero s = ((λ m. ([], omega arith, m)), (λ h. none_left h.0 h.1 h.2))
  where
    none_left : (cs : List Card) → length cs ≤ 0 → s ≡ cards_text cs → s ≡ []
    none_left [] l e = e
    none_left (c ∷ cs) l e = absurd (omega arith)
Matches-up_to (suc n) s = (
  (λ m. read (λ y. (Matches-up_to n y).0) m),
  (λ h. write (λ y. (Matches-up_to n y).1) h.0 h.1 h.2),
)
  where
    read :
        ((y : Bytes)
          → Matches (up_to n card_re) y
          → (cs : List Card) × (length cs ≤ n) × (y ≡ cards_text cs))
        → Matches (up_to (suc n) card_re) s
        → (cs : List Card) × (length cs ≤ suc n) × (s ≡ cards_text cs)
    read rest (inl (x, y, e, mx, my)) =
        let (c, ec) = (Matches-card_re x).0 mx in
        let (cs, l, es) = rest y my in (c ∷ cs, omega arith, e ∙ ap₂ (λ u v. u ++ v) ec es)
    read rest (inr e) = ([], omega arith, e)

    write :
        ((y : Bytes)
          → ((cs : List Card) × (length cs ≤ n) × (y ≡ cards_text cs))
          → Matches (up_to n card_re) y)
        → (cs : List Card) → length cs ≤ suc n
        → s ≡ cards_text cs
        → Matches (up_to (suc n) card_re) s
    write rest [] l e = inr e
    write rest (c ∷ cs) l e = inl (
      card_text c,
      cards_text cs,
      e,
      (Matches-card_re (card_text c)).1 (c, refl),
      rest (cards_text cs) (cs, omega arith, refl),
    )
