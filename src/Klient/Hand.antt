-- ===== src/Klient/Hand.antt =====
-- The client's hand over a trick: what TAKEN leaves of it.
use kierki_sik.Prelude.{
  ◌≡◌, ◌≢◌, ◌↔◌, ◌⊎◌, inl, inr, refl, sym, ◌∙◌, List, [], ◌∷◌, false, Bytes, same, same_iff,
  Bool-cases, subst,
}
use kierki_sik.Klient.{drop_card, drop_cards}
use kierki_sik.Klient.Strategy.{Holds}

-- No card stands in the list twice.
abbrev pub NoTwice : List Bytes → Type 0
NoTwice [] = Unit {0}
NoTwice (c ∷ cards) = (¬ Holds cards c) × NoTwice cards

drop_first : (c x : Bytes) (cards : List Bytes) → c ≡ x → drop_card x (c ∷ cards) ≡ cards
unfolding drop_card
drop_first c x cards e = rw ((same_iff c x).1 e) refl

drop_later :
    (c x : Bytes) (cards : List Bytes)
    → same c x ≡ false
    → drop_card x (c ∷ cards) ≡ c ∷ drop_card x cards
unfolding drop_card
drop_later c x cards e = rw e refl

not_same : (c x : Bytes) → same c x ≡ false → c ≢ x
not_same c x e q = cc ((same_iff c x).1 q, e)

-- Dropping a card leaves the other cards.
drop_card-Holds :
    (x : Bytes) (cards : List Bytes)
    → NoTwice cards
    → (z : Bytes) → Holds (drop_card x cards) z ↔ (Holds cards z × (z ≢ x))
unfolding drop_card
drop_card-Holds x [] once z = ((λ h. absurd h), (λ h. h.0))
drop_card-Holds x (c ∷ cards) once z = elim (Bool-cases (same c x)) [
  | inl e ↦ rw (drop_first c x cards ((same_iff c x).0 e)) (found ((same_iff c x).0 e))
  | inr e ↦ rw (drop_later c x cards e) (passed e (drop_card-Holds x cards once.1 z))
]
  where
    found : c ≡ x → Holds cards z ↔ (((c ≡ z) ⊎ Holds cards z) × (z ≢ x))
    found e = (
      (λ h. (inr h, λ q. once.0 (subst (Holds cards) (q ∙ sym e) h))),
      (λ p. elim p.0 [ inl q ↦ absurd (p.1 (sym q ∙ e)) | inr h ↦ h ]),
    )

    passed :
        same c x ≡ false
        → Holds (drop_card x cards) z ↔ (Holds cards z × (z ≢ x))
        → ((c ≡ z) ⊎ Holds (drop_card x cards) z) ↔ (((c ≡ z) ⊎ Holds cards z) × (z ≢ x))
    passed e rest = (
      (λ h. elim h [
        | inl q ↦ (inl q, λ r. not_same c x e (q ∙ r))
        | inr k ↦ (inr (rest.0 k).0, (rest.0 k).1)
      ]),
      (λ p. elim p.0 [ inl q ↦ inl q | inr h ↦ inr (rest.1 (h, p.1)) ]),
    )

drop_card-NoTwice : (x : Bytes) (cards : List Bytes) → NoTwice cards → NoTwice (drop_card x cards)
unfolding drop_card
drop_card-NoTwice x [] once = tt
drop_card-NoTwice x (c ∷ cards) once = elim (Bool-cases (same c x)) [
  | inl e ↦ rw (drop_first c x cards ((same_iff c x).0 e)) once.1
  | inr e ↦
      rw (drop_later c x cards e)
        ((λ h. once.0 ((drop_card-Holds x cards once.1 c).0 h).0), drop_card-NoTwice x cards once.1)
]

-- Dropping the cards of a trick leaves the cards that are not in it.
pub drop_cards-Holds :
    (taken cards : List Bytes)
    → NoTwice cards
    → (z : Bytes) → Holds (drop_cards taken cards) z ↔ (Holds cards z × (¬ Holds taken z))
unfolding drop_cards
drop_cards-Holds [] cards once z = ((λ h. (h, λ k. k)), (λ p. p.0))
drop_cards-Holds (x ∷ taken) cards once z =
    both (drop_cards-Holds taken (drop_card x cards) (drop_card-NoTwice x cards once) z)
      (drop_card-Holds x cards once z)
  where
    both :
        Holds (drop_cards taken (drop_card x cards)) z
          ↔ (Holds (drop_card x cards) z × (¬ Holds taken z))
        → Holds (drop_card x cards) z ↔ (Holds cards z × (z ≢ x))
        → Holds (drop_cards taken (drop_card x cards)) z
          ↔ (Holds cards z × (¬ ((x ≡ z) ⊎ Holds taken z)))
    both later first = (
      (λ h. (
        (first.0 (later.0 h).0).0,
        λ k. elim k [ inl q ↦ (first.0 (later.0 h).0).1 (sym q) | inr t ↦ (later.0 h).1 t ],
      )),
      (λ p. later.1 (first.1 (p.0, λ q. p.1 (inl (sym q))), λ t. p.1 (inr t))),
    )
