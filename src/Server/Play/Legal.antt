-- ===== src/Server/Play/Legal.antt =====
-- The rules for one play of a card, and that the tests of `parse_message` decide them.
use kierki_sik.Prelude.{
  ℕ, ◌≡◌, ◌≢◌, ◌↔◌, ◌⊎◌, inl, inr, refl, subst, List, [], ◌∷◌, true, false, Bytes, same_iff,
  last_char, All, Bool-cases, arith, ==_iff,
}
use kierki_sik.Cards.Texts.{IsCard}
use kierki_sik.Server.{World}
use kierki_sik.Server.Play.{
  has_card, has_color, right_color, hand_of, accept_card, refuse_card, judge_card,
}

-- The card is in the hand.
abbrev pub Held : Bytes → List Bytes → Type 0
Held card [] = ⊥
Held card (c ∷ hand) = (c ≡ card) ⊎ Held card hand

-- The first card's color is followed, unless the hand has none of it.
abbrev pub Follows : List Bytes → List Bytes → Bytes → Type 0
Follows [] hand card = Unit {0}
Follows (first ∷ table) hand card =
    (last_char card ≡ last_char first) ⊎ All (λ c. last_char c ≢ last_char first) hand

-- The rules of the game for one play.
abbrev pub IsLegal : List Bytes → List Bytes → Bytes → Type 0
IsLegal table hand card = Held card hand × Follows table hand card

pub has_card_iff : (card : Bytes) (hand : List Bytes) → (has_card card hand ≡ true) ↔ Held card hand
unfolding has_card
has_card_iff card [] = ((λ h. cc), (λ h. absurd h))
has_card_iff card (c ∷ hand) = (
  (λ h. ground (arith, same_iff c card, has_card_iff card hand)),
  (λ h. ground (arith, same_iff c card, has_card_iff card hand)),
)

has_color_iff :
    (main : ℕ) (hand : List Bytes)
    → (has_color main hand ≡ false) ↔ All (λ c. last_char c ≢ main) hand
unfolding has_color
has_color_iff main [] = ((λ h. tt), (λ h. refl))
has_color_iff main (c ∷ hand) =
    ((λ h. ground (arith, has_color_iff main hand)), (λ h. ground (arith, has_color_iff main hand)))

right_color_iff :
    (table hand : List Bytes) (card : Bytes)
    → (right_color table hand true card ≡ true) ↔ Follows table hand card
unfolding right_color
right_color_iff [] hand card = ((λ h. tt), (λ h. refl))
right_color_iff (first ∷ table) hand card = (
  (λ h. ground (arith, has_color_iff (last_char first) hand)),
  (λ h. ground (arith, has_color_iff (last_char first) hand)),
)

right_color_other :
    (table hand : List Bytes) (card : Bytes) → right_color table hand false card ≡ false
unfolding right_color
right_color_other [] hand card = refl
right_color_other (first ∷ table) hand card = refl

-- Every card of the hand is one of the fifty-two.
abbrev pub AllCards : List Bytes → Type 0
AllCards = All IsCard

Held-IsCard : (card : Bytes) (hand : List Bytes) → AllCards hand → Held card hand → IsCard card
Held-IsCard card [] all h = absurd h
Held-IsCard card (c ∷ hand) all (inl e) = subst IsCard e all.0
Held-IsCard card (c ∷ hand) all (inr h) = Held-IsCard card hand all.1 h

pub judge_legal :
    (current : ℕ) (card : Bytes) (w : World)
    → IsLegal w.server.cards_on_table (hand_of w) card
    → judge_card current current card w ≡ accept_card card w
unfolding judge_card
judge_legal current card w (held, follows) = rw (
  (has_card_iff card (hand_of w)).1 held,
  (==_iff current current).1 refl,
  (right_color_iff w.server.cards_on_table (hand_of w) card).1 follows,
)

pub judge_illegal :
    (current : ℕ) (card : Bytes) (w : World)
    → ¬ IsLegal w.server.cards_on_table (hand_of w) card
    → judge_card current current card w ≡ refuse_card current w
unfolding judge_card
judge_illegal current card w illegal = ground (
  arith,
  has_card_iff card (hand_of w),
  ==_iff current current,
  right_color_iff w.server.cards_on_table (hand_of w) card,
)

pub judge_other :
    (current m : ℕ) (t : Bytes) (w : World)
    → AllCards (hand_of w)
    → (m ≢ current) ⊎ (¬ IsCard t)
    → judge_card current m t w ≡ refuse_card current w
unfolding judge_card
judge_other current m t w all (inl ne) =
    ground (arith, ==_iff m current, right_color_other w.server.cards_on_table (hand_of w) t)
judge_other current m t w all (inr nc) = elim (Bool-cases (has_card t (hand_of w))) [
  | inl e ↦ absurd (nc (Held-IsCard t (hand_of w) all ((has_card_iff t (hand_of w)).0 e)))
  | inr e ↦ rw e
]
