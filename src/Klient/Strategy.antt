-- ===== src/Klient/Strategy.antt =====
-- The cards that the automatic player chooses: it holds them, and it follows the color if it can.
use mathlib.Core.List.{Perm}
use mathlib.Core.List.Perm
use kierki_sik.Prelude.{
  ℕ, ◌≡◌, ◌≢◌, ◌⊎◌, inl, inr, refl, List, [], ◌∷◌, ◌++◌, false, Option, none, some, Bytes,
  last_char, All, Bool-cases, arith, length, ◌==◌, ==_iff,
}
use kierki_sik.Klient.{Klient, last_card, pop_back, first_of_color, strategy, play, play_last}

-- The list holds the card.
abbrev pub Holds : List Bytes → Bytes → Type 0
Holds [] card = ⊥
Holds (c ∷ cards) card = (c ≡ card) ⊎ Holds cards card

-- The card has the color that begins `color`, or no card of `cards` has it; any card will do when
-- no color is asked for.
abbrev pub Obeys : Bytes → List Bytes → Bytes → Type 0
Obeys [] cards card = Unit {0}
Obeys (c ∷ color) cards card = (last_char card ≡ c) ⊎ All (λ d. last_char d ≢ c) cards

last_card-Holds : (c : Bytes) (cards : List Bytes) → Holds (c ∷ cards) (last_card (c ∷ cards))
unfolding last_card
last_card-Holds c [] = inl refl
last_card-Holds c (d ∷ cards) = inr (last_card-Holds d cards)

last_card-perm :
    (c : Bytes) (cards : List Bytes)
    → Perm (c ∷ cards) (last_card (c ∷ cards) ∷ pop_back (c ∷ cards))
unfolding last_card pop_back
last_card-perm c [] = Perm.refl (c ∷ [])
last_card-perm c (d ∷ cards) = Perm.trans (Perm.cons c (last_card-perm d cards)) (Perm.swap _ _ _)

-- What the loop of `strategy` finds.
abbrev Found : ℕ → List Bytes → Option (Bytes × List Bytes) → Type 0
Found color cards none = All (λ d. last_char d ≢ color) cards
Found color cards (some (card, rest)) =
    (last_char card ≡ color) × Holds cards card × Perm cards (card ∷ rest)

first_of_color-Found :
    (color : ℕ) (cards : List Bytes) → Found color cards (first_of_color color cards)
unfolding first_of_color
first_of_color-Found color [] = tt
first_of_color-Found color (c ∷ cards) = elim (Bool-cases (last_char c == color)) [
  | inl e ↦ rw e ((==_iff _ _).0 e, inl refl, Perm.refl (c ∷ cards))
  | inr e ↦ rw e (later e (first_of_color color cards) (first_of_color-Found color cards))
]
  where
    later :
        (last_char c == color) ≡ false
        → (o : Option (Bytes × List Bytes)) → Found color cards o
        → Found color (c ∷ cards) (elim o as (λ _. Option (Bytes × List Bytes)) [
          | none ↦ none
          | some (d, rest) ↦ some (d, c ∷ rest)
        ])
    later e none f = ((λ h. cc ((==_iff _ _).1 h, e)), f)
    later e (some (d, rest)) (e', h, p) = (e', inr h, Perm.trans (Perm.cons c p) (Perm.swap _ _ _))

-- What a choice leaves: the card was in the hand, it obeys the color, and it has moved from the hand
-- to the cards played in this trick.
pub record Chosen (color : Bytes) (k : Klient) (card : Bytes) (k' : Klient) : Type 0 where
  pub held : Holds k.my_cards card
  pub obeys : Obeys color k.my_cards card
  pub moved : Perm k.my_cards (card ∷ k'.my_cards)
  pub kept : k'.played_cards ≡ k.played_cards ++ card ∷ []

play_last-Chosen :
    (color : Bytes) (k : Klient) (hand : List Bytes)
    → k.my_cards ≡ hand
    → hand ≢ []
    → Obeys color hand (last_card hand)
    → Chosen color k (play_last k).0 (play_last k).1
play_last-Chosen color k [] e ne o = absurd (ne refl)
play_last-Chosen color k (c ∷ hand) e ne o = record {
  held = rw e (last_card-Holds c hand);
  obeys = rw e o;
  moved = rw e (last_card-perm c hand);
  kept = refl;
}

strategy_nonempty : (k : Klient) → k.my_cards ≢ [] → (length k.my_cards == 0) ≡ false
strategy_nonempty k ne = go k.my_cards ne
  where
    go : (cards : List Bytes) → cards ≢ [] → (length cards == 0) ≡ false
    go [] ne = absurd (ne refl)
    go (c ∷ cards) ne = ground arith

-- With a card in hand the strategy plays one of its cards, and follows the color that is asked for
-- unless it has none of it.
pub strategy-Chosen :
    (color : Bytes) (k : Klient)
    → k.my_cards ≢ []
    → Chosen color k (strategy color k).0 (strategy color k).1
unfolding strategy
strategy-Chosen [] k ne = rw (strategy_nonempty k ne) (play_last-Chosen [] k k.my_cards refl ne tt)
strategy-Chosen (c ∷ color) k ne =
    rw (strategy_nonempty k ne)
      (by_loop (first_of_color c k.my_cards) (first_of_color-Found c k.my_cards))
  where
    pick : Option (Bytes × List Bytes) → Bytes × Klient
    pick o = elim o [ none ↦ play_last k | some (card, rest) ↦ play card rest k ]

    by_loop :
        (o : Option (Bytes × List Bytes))
        → Found c k.my_cards o
        → Chosen (c ∷ color) k (pick o).0 (pick o).1
    by_loop none f = play_last-Chosen (c ∷ color) k k.my_cards refl ne (inr f)
    by_loop (some (card, rest)) (e, h, p) = record {
      held = h;
      obeys = inl e;
      moved = p;
      kept = refl;
    }
