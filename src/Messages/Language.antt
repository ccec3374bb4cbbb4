-- ===== src/Messages/Language.antt =====
-- Which texts each check of regex.cpp accepts: the messages that senders.cpp builds.
use kierki_sik.Prelude.{
  ℕ, ◌≤◌, ◌≡◌, ◌↔◌, refl, ap, sym, subst, ◌∙◌, List, [], ◌∷◌, ◌++◌, append-nil, true, Bytes, codes,
  length, map,
}
use mathlib.Core.Path.{ap₂}
use kierki_sik.Cards.{Card, card_text}
use kierki_sik.Cards.Texts.{card_text_prefix, card_text-ne-nil}
use kierki_sik.Seats.{Seat, seat_text}
use kierki_sik.Regex.{
  Boost, Re, cls, seq, Matches, literal, times, up_to, seat_re, card_re, trick_nr_re, iam_check,
  deal_check, trick_check, extract_cards, trick_client_check, wrong_check, taken_check, end_re,
}
use kierki_sik.Decimal.{to_string}
use kierki_sik.Messages.{
  delimeter, iam_message, deal_message, trick_message, wrong_message, taken_message,
}
use kierki_sik.Messages.Words.{Matches-literal, Matches-seat_re, Matches-card_re}
use kierki_sik.Messages.TrickNumbers.{
  Matches-trick_nr_re, IsTrickNr, IsDealType, deal_type_read, deal_type_matched,
}
use kierki_sik.Messages.Repeats.{Matches-times, Matches-up_to, cards_text}

-- The expression matches exactly the texts of the values of `A`.
pub record Denotes {A : Type 0} (r : Re) (text : A → Bytes) : Type 0 where
  pub reads : (s : Bytes) → Matches r s → (a : A) × (s ≡ text a)
  pub writes : (a : A) → Matches r (text a)

pub seq-Denotes :
    {A B : Type 0} {r q : Re} {f : A → Bytes} {g : B → Bytes}
    → Denotes r f
    → Denotes q g
    → Denotes {A = A × B} (seq r q) (λ p. f p.0 ++ g p.1)
seq-Denotes {f = f} {g = g} hf hg = record {
  reads = λ s (x, y, e, mx, my).
      let (a, ea) = hf.reads x mx in
      let (b, eb) = hg.reads y my in ((a, b), e ∙ ap₂ (λ u v. u ++ v) ea eb);
  writes = λ p. (f p.0, g p.1, refl, hf.writes p.0, hg.writes p.1);
}

pub literal-Denotes : (w : Bytes) → Denotes {A = Unit {0}} (literal w) (λ _. w)
literal-Denotes w = record {
  reads = λ s m. (tt, (Matches-literal w s).0 m);
  writes = λ _. (Matches-literal w w).1 refl;
}

pub seat-Denotes : Denotes seat_re seat_text
seat-Denotes = record {
  reads = λ s m. (Matches-seat_re s).0 m;
  writes = λ x. (Matches-seat_re (seat_text x)).1 (x, refl);
}

pub card-Denotes : Denotes card_re card_text
card-Denotes = record {
  reads = λ s m. (Matches-card_re s).0 m;
  writes = λ c. (Matches-card_re (card_text c)).1 (c, refl);
}

-- A number from 1 to 13.
abbrev pub TrickNr : Type 0
TrickNr = (n : ℕ) × IsTrickNr n

pub trick_nr-Denotes : Denotes {A = TrickNr} trick_nr_re (λ n. to_string n.0)
trick_nr-Denotes = record {
  reads = λ s m. let (n, r, e) = (Matches-trick_nr_re s).0 m in ((n, r), e);
  writes = λ n. (Matches-trick_nr_re (to_string n.0)).1 (n.0, n.1, refl);
}

abbrev pub Exactly : ℕ → Type 0
Exactly n = (cs : List Card) × (length cs ≡ n)

pub times-Denotes : (n : ℕ) → Denotes {A = Exactly n} (times n card_re) (λ cs. cards_text cs.0)
times-Denotes n = record {
  reads = λ s m. let (cs, l, e) = (Matches-times n s).0 m in ((cs, l), e);
  writes = λ cs. (Matches-times n (cards_text cs.0)).1 (cs.0, cs.1, refl);
}

abbrev pub AtMost : ℕ → Type 0
AtMost n = (cs : List Card) × (length cs ≤ n)

pub up_to-Denotes : (n : ℕ) → Denotes {A = AtMost n} (up_to n card_re) (λ cs. cards_text cs.0)
up_to-Denotes n = record {
  reads = λ s m. let (cs, l, e) = (Matches-up_to n s).0 m in ((cs, l), e);
  writes = λ cs. (Matches-up_to n (cards_text cs.0)).1 (cs.0, cs.1, refl);
}

-- A type of deal from 1 to 7.
abbrev pub DealType : Type 0
DealType = (t : ℕ) × IsDealType t

pub deal_type-Denotes : Denotes {A = DealType} (cls (codes "1234567")) (λ t. to_string t.0)
deal_type-Denotes = record {
  reads = λ s m. let (t, r, e) = deal_type_read s m in ((t, r), e);
  writes = λ t. deal_type_matched t.0 t.1;
}

-- Behind a literal, and before the line's end.
pub word-Denotes :
    {A : Type 0} (w : Bytes) {r : Re} {f : A → Bytes}
    → Denotes r f
    → Denotes {A = A} (seq (literal w) r) (λ a. w ++ f a)
word-Denotes w h = record {
  reads = λ s m. let ((u, a), e) = (seq-Denotes (literal-Denotes w) h).reads s m in (a, e);
  writes = λ a. (seq-Denotes (literal-Denotes w) h).writes (tt, a);
}

pub line-Denotes :
    {A : Type 0} {r : Re} {f : A → Bytes}
    → Denotes r f
    → Denotes {A = A} (seq r end_re) (λ a. f a ++ delimeter)
line-Denotes h = record {
  reads = λ s m. let ((a, u), e) = (seq-Denotes h (literal-Denotes delimeter)).reads s m in (a, e);
  writes = λ a. (seq-Denotes h (literal-Denotes delimeter)).writes (a, tt);
}

-- A check by an expression that denotes messages accepts those messages.
check-Denotes :
    {A : Type 0} (boost : Boost) {r : Re} {f : A → Bytes}
    → Denotes r f
    → (s : Bytes) → (boost.regex_match r s ≡ true) ↔ ((a : A) × (s ≡ f a))
check-Denotes boost {r} h s = (
  (λ m. h.reads s ((boost.regex_match_iff r s).0 m)),
  (λ k. (boost.regex_match_iff r s).1 (subst (Matches r) (sym k.1) (h.writes k.0))),
)

module _ (boost : Boost) (s : Bytes) where
  -- `IAM_check` accepts the greetings of the four seats, and nothing else.
  pub iam_check_iff : (iam_check boost s ≡ true) ↔ ((x : Seat) × (s ≡ iam_message (seat_text x)))
  unfolding iam_check
  iam_check_iff = check-Denotes boost (word-Denotes (codes "IAM") (line-Denotes seat-Denotes)) s

  -- `WRONG_check` accepts the WRONG messages of the tricks 1 to 13, and nothing else.
  pub wrong_check_iff : (wrong_check boost s ≡ true) ↔ ((n : TrickNr) × (s ≡ wrong_message n.0))
  unfolding wrong_check
  wrong_check_iff =
      check-Denotes boost (word-Denotes (codes "WRONG") (line-Denotes trick_nr-Denotes)) s

  -- `TRICK_client_check` accepts the plays of one card in one of the tricks 1 to 13, and nothing
  -- else.
  pub trick_client_check_iff :
      (trick_client_check boost s ≡ true)
      ↔ ((p : TrickNr × Card) × (s ≡ trick_message p.0.0 (card_text p.1 ∷ [])))
  unfolding trick_client_check
  trick_client_check_iff = simp append-nil (
      check-Denotes boost
        (word-Denotes (codes "TRICK") (seq-Denotes trick_nr-Denotes (line-Denotes card-Denotes))) s)

  -- `TRICK_check` for trick `n` accepts the requests of this trick that show at most three cards,
  -- and nothing else.
  pub trick_check_iff :
      (n : ℕ)
      → (trick_check boost s n ≡ true)
        ↔ ((cs : AtMost 3) × (s ≡ trick_message n (map card_text cs.0)))
  unfolding trick_check
  trick_check_iff n =
      check-Denotes boost
        (word-Denotes (codes "TRICK") (word-Denotes (to_string n) (line-Denotes (up_to-Denotes 3))))
        s

  -- `TAKEN_check` for trick `n` accepts the TAKEN messages of this trick that show four cards and a
  -- seat, and nothing else.
  pub taken_check_iff :
      (n : ℕ)
      → (taken_check boost s n ≡ true)
        ↔ ((p : Exactly 4 × Seat) × (s ≡ taken_message n (map card_text p.0.0) (seat_text p.1)))
  unfolding taken_check
  taken_check_iff n =
      check-Denotes boost
        (word-Denotes (codes "TAKEN")
          (word-Denotes (to_string n) (seq-Denotes (times-Denotes 4) (line-Denotes seat-Denotes))))
        s

  -- `DEAL_check` accepts the DEAL messages of a type from 1 to 7, a seat and thirteen cards, and
  -- nothing else.
  pub deal_check_iff : (deal_check boost s ≡ true) ↔ (
      (p : DealType × (Seat × Exactly 13)) × (s
        ≡ deal_message p.0.0 (seat_text p.1.0) (map card_text p.1.1.0)))
  unfolding deal_check
  deal_check_iff =
      check-Denotes boost
        (word-Denotes (codes "DEAL") (
          seq-Denotes deal_type-Denotes
            (seq-Denotes seat-Denotes (line-Denotes (times-Denotes 13)))))
        s

no_empty_card : ¬ Matches card_re []
no_empty_card m = let (c, e) = card-Denotes.reads [] m in card_text-ne-nil c (sym e)

only_card :
    (c : Card) (s y z : Bytes) → card_text c ++ s ≡ y ++ z → Matches card_re y → y ≡ card_text c
only_card c s y z e m =
    let (d, k) = card-Denotes.reads y m in
    k ∙ sym (ap card_text (card_text_prefix c d s z (e ∙ ap (λ l. l ++ z) k)))

-- Cards written one after the other are found again, in order.
pub extract_cards-concat :
    (boost : Boost) (cs : List Card) → extract_cards boost (cards_text cs) ≡ map card_text cs
unfolding extract_cards
extract_cards-concat boost [] = boost.iterate-nil card_re no_empty_card
extract_cards-concat boost (c ∷ cs) =
    boost.iterate_take card_re (card_text c) (cards_text cs) (card_text-ne-nil c)
      (card-Denotes.writes c) (only_card c (cards_text cs))
    ∙ ap (λ l. card_text c ∷ l) (extract_cards-concat boost cs)
