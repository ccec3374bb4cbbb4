-- ===== src/Interplay.antt =====
-- The client and the server together: a request for a card (senders.cpp), the automatic player's
-- reply (klient.cpp) and what the server makes of it (serwer.cpp).
pub mod Dealing
use kierki_sik.Prelude.{
  ◌≤◌, ◌≡◌, ◌≢◌, ◌↔◌, inl, inr, refl, ap, sym, ◌∙◌, subst, List, [], ◌∷◌, true, Bytes, length, map,
  All, last_char,
}
use kierki_sik.Cards.{Card, card_text, suit_char}
use kierki_sik.Cards.Texts.{IsCard, last_char-card_text}
use kierki_sik.Regex.{Boost}
use kierki_sik.Messages.{trick_message}
use kierki_sik.Messages.TrickNumbers.{IsTrickNr}
use kierki_sik.Klient.{sent}
use kierki_sik.Klient.{Klient, receive, receive_trick, answer_trick, strategy, send_trick}
use kierki_sik.Klient.Strategy.{Holds, Obeys, strategy-Chosen}
use kierki_sik.Klient.Dispatch.{receive-trick, trick_color-asked, asked}
use kierki_sik.Server.{World, going, answer}
use kierki_sik.Server.Play.{parse_message, hand_of}
use kierki_sik.Server.Play.Legal.{Held, Follows, IsLegal, AllCards}
use kierki_sik.Server.Play.Verdicts.{play_text, played, parse_message_legal}

-- The client and the server agree on the cards in the hand.
abbrev pub SameHand : List Bytes → List Bytes → Type 0
SameHand cards hand = (x : Bytes) → Holds cards x ↔ Held x hand

none_left :
    (P : Bytes → Type 0) (cards : List Bytes) → All P cards → (x : Bytes) → Holds cards x → P x
none_left P [] all x h = absurd h
none_left P (c ∷ cards) all x (inl e) = subst P e all.0
none_left P (c ∷ cards) all x (inr h) = none_left P cards all.1 x h

from_each :
    (P : Bytes → Type 0) (hand : List Bytes) → ((x : Bytes) → Held x hand → P x) → All P hand
from_each P [] f = tt
from_each P (c ∷ hand) f = (f c (inl refl), from_each P hand (λ x h. f x (inr h)))

transfer :
    (P : Bytes → Type 0) (cards hand : List Bytes) → SameHand cards hand → All P cards → All P hand
transfer P cards hand agree all = from_each P hand (λ x h. none_left P cards all x ((agree x).1 h))

-- A card that obeys the color asked for follows the table.
Obeys-Follows :
    (table : List Card) (cards hand : List Bytes) (card : Bytes)
    → SameHand cards hand
    → Obeys (asked table) cards card
    → Follows (map card_text table) hand card
Obeys-Follows [] cards hand card agree o = tt
Obeys-Follows (c ∷ table) cards hand card agree (inl e) = inl (e ∙ sym (last_char-card_text c))
Obeys-Follows (c ∷ table) cards hand card agree (inr all) = inr (
    subst (λ m. All (λ d. last_char d ≢ m) hand) (sym (last_char-card_text c))
      (transfer (λ d. last_char d ≢ suit_char c.suit) cards hand agree all))

reply :
    (boost : Boost) (table : List Card) (k : Klient)
    → IsTrickNr k.trick_number
    → k.is_ai ≡ true
    → length table ≤ 3
    → receive boost true (trick_message k.trick_number (map card_text table)) k
      ≡ answer_trick true (asked table) (record k { expected_color = asked table })
unfolding receive_trick
reply boost table k r ai short =
    receive-trick boost true table k short
    ∙ simp (ai, trick_color-asked boost k.trick_number table r)

answer_event :
    (color : Bytes) (k : Klient)
    → (answer_trick true color k).1
      ≡ sent (trick_message k.trick_number ((strategy color k).0 ∷ [])) ∷ []
unfolding answer_trick send_trick
answer_event color k = refl

chosen-IsLegal :
    (w : World) (k : Klient) (table : List Card) (c : Card) (card : Bytes)
    → SameHand k.my_cards (hand_of w)
    → w.server.cards_on_table ≡ map card_text table
    → card ≡ card_text c
    → Holds k.my_cards card
    → Obeys (asked table) k.my_cards card
    → IsLegal w.server.cards_on_table (hand_of w) (card_text c)
chosen-IsLegal w k table c card agree on_table e held obeys =
    subst (λ t. IsLegal t (hand_of w) (card_text c)) (sym on_table)
      (subst (IsLegal (map card_text table) (hand_of w)) e
        ((agree card).0 held, Obeys-Follows table k.my_cards (hand_of w) card agree obeys))

-- In a trick numbered 1 to 13 with at most three cards on the table, an automatic player whose
-- hand is not empty and holds cards of the deck answers a request with a card that the server
-- accepts, when both agree on the hand and on the trick, the client is awaited, and the main
-- thread's pipe takes a byte.
pub receive-parse_message :
    (boost : Boost) (k : Klient) (w : World) (table : List Card)
    → IsTrickNr k.trick_number
    → k.is_ai ≡ true
    → k.my_cards ≢ []
    → AllCards k.my_cards
    → SameHand k.my_cards (hand_of w)
    → w.server.cards_on_table ≡ map card_text table
    → length table ≤ 3
    → w.client.b_was_destined_to_play ≡ true
    → answer w.answers ≡ true
    → (c : Card) × ((receive boost true (trick_message k.trick_number w.server.cards_on_table) k).1
        ≡ sent (play_text k.trick_number c) ∷ [])
      × (parse_message boost (play_text k.trick_number c) k.trick_number w
          ≡ going (played (card_text c) w))
receive-parse_message boost k w table r ai ne all agree on_table short turn told =
    let n = k.trick_number in
    let k' = record k { expected_color = asked table } in
    let chosen = strategy-Chosen (asked table) k' ne in
    let (c, e) = none_left IsCard k.my_cards all (strategy (asked table) k').0 chosen.held in
    (
      c,
      ap (λ t. (receive boost true (trick_message n t) k).1) on_table
          ∙ ap (λ p. p.1) (reply boost table k r ai short)
          ∙ answer_event (asked table) k'
          ∙ ap (λ x. sent (trick_message n (x ∷ [])) ∷ []) e,
      parse_message_legal boost n c w r turn told (
          chosen-IsLegal w k table c (strategy (asked table) k').0 agree on_table e chosen.held
            chosen.obeys),
    )
