-- ===== src/Server/Kept/Cards.antt =====
-- A card that a player puts down leaves the hand and lies on the table (`parse_message`).
use kierki_sik.Prelude.{
  ℕ, zero, suc, arith, ◌≡◌, List, [], ◌∷◌, ◌++◌, append_assoc, true, false, Bytes, same, same_iff,
  get_or, set, Bool-cases, inl, inr,
}
use mathlib.Core.List.{Perm, perm_middle}
use mathlib.Core.List.Perm
use kierki_sik.Server.Play.{has_card, erase_card}
use kierki_sik.Server.Kept.{in_hands}

has_card_rest :
    (card c : Bytes) (hand : List Bytes)
    → same c card ≡ false
    → has_card card (c ∷ hand) ≡ true
    → has_card card hand ≡ true
unfolding has_card
has_card_rest card c hand e has = ground arith

pub erase_card-Perm :
    (card : Bytes) (hand : List Bytes)
    → has_card card hand ≡ true
    → Perm hand (card ∷ erase_card card hand)
unfolding has_card erase_card
erase_card-Perm card [] has = absurd (cc)
erase_card-Perm card (c ∷ hand) has = elim (Bool-cases (same c card)) [
  | inl e ↦ rw (e, (same_iff c card).0 e) Perm.rfl
  | inr e ↦ rw e (
      Perm.trans (Perm.cons c (erase_card-Perm card hand (has_card_rest card c hand e has)))
        (Perm.swap card c (erase_card card hand)))
]

-- The hand at index `i` gives up the card.
abbrev pub give_up : Bytes → ℕ → List (List Bytes) → List (List Bytes)
give_up card i hands = set hands i (erase_card card (get_or hands i []))

pub give_up-Perm :
    (card : Bytes) (i : ℕ) (hands : List (List Bytes))
    → has_card card (get_or hands i []) ≡ true
    → Perm (in_hands hands) (card ∷ in_hands (give_up card i hands))
unfolding has_card
give_up-Perm card i [] has = absurd cc
give_up-Perm card zero (hand ∷ hands) has =
    Perm.append_right (in_hands hands) (erase_card-Perm card hand has)
give_up-Perm card (suc i) (hand ∷ hands) has =
    Perm.trans (Perm.append_left hand (give_up-Perm card i hands has))
      (perm_middle hand (in_hands (give_up card i hands)))

-- From the hand to the end of the table.
pub put_down-Perm :
    (card : Bytes) (i : ℕ) (table : List Bytes) (hands : List (List Bytes))
    → has_card card (get_or hands i []) ≡ true
    → Perm (table ++ in_hands hands) ((table ++ card ∷ []) ++ in_hands (give_up card i hands))
put_down-Perm card i table hands has =
    rw (append_assoc table (card ∷ []) (in_hands (give_up card i hands)))
      (Perm.append_left table (give_up-Perm card i hands has))
