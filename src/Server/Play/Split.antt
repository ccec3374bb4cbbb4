-- ===== src/Server/Play/Split.antt =====
-- How `parse_message` cuts a TRICK message when its number is the current one, and when it is not.
use kierki_sik.Prelude.{
  ℕ, ◌+◌, ◌-◌, ◌*◌, ◌≤◌, ◌<◌, ◌≡◌, ◌≢◌, refl, ap, ◌∙◌, [], ◌∷◌, ◌++◌, append-nil, dec_lt, ◌⊎◌, inl,
  inr, Option, some, Bytes, codes, arith, lt→ltb, le→ltb, if◌then◌else◌,
}
use kierki_sik.Decimal.{is_digit, to_string, stoi}
use kierki_sik.Cards.{Card, card_text}
use kierki_sik.Cards.Texts.{IsCard, card_text-ne-nil, tail-not-IsCard, longer-not-IsCard}
use kierki_sik.Messages.{trick_message, delimeter}
use kierki_sik.Messages.Numbers.{short_number, long_number, cut_end}
use kierki_sik.Messages.TrickNumbers.{IsTrickNr}
use kierki_sik.Server.Play.{split_play}

stoi_digit : (d : ℕ) → d < 10 → stoi ((b'0' + d) ∷ []) ≡ some d
unfolding stoi
stoi_digit d h = ground arith

stoi_two : (d : ℕ) → d < 10 → stoi (b'1' ∷ (b'0' + d) ∷ []) ≡ some (10 + d)
unfolding stoi
stoi_two d h = ground arith

-- A number of one digit, `d`, before the text `t`.
cut_short :
    (d current : ℕ) (t : Bytes)
    → d < 10
    → current < 10
    → split_play current (codes "TRICK" ++ (b'0' + d) ∷ (t ++ delimeter)) ≡ some (d, t)
unfolding split_play
cut_short d current t h k =
    rw (lt→ltb current 10 k, stoi_digit d h) (ap (λ l. some (d, l)) (cut_end t _ (omega arith)))

cut_long :
    (d current : ℕ) (t : Bytes)
    → d < 10
    → 10 ≤ current
    → split_play current (codes "TRICK" ++ b'1' ∷ (b'0' + d) ∷ (t ++ delimeter)) ≡ some (10 + d, t)
unfolding split_play
cut_long d current t h k =
    rw (le→ltb current 10 k, stoi_two d h) (ap (λ l. some (10 + d, l)) (cut_end t _ (omega arith)))

stoi_first : (d x : ℕ) → d < 10 → (m : ℕ) × (stoi ((b'0' + d) ∷ x ∷ []) ≡ some m)
unfolding stoi
stoi_first d x h = (if is_digit x then d * 10 + (x - b'0') else d, ground arith)

-- A number of one digit where two are expected: the card loses its first character.
cut_over :
    (d current x : ℕ) (r : Bytes)
    → d < 10
    → 10 ≤ current
    → (m : ℕ) × (split_play current (codes "TRICK" ++ (b'0' + d) ∷ (x ∷ r ++ delimeter))
        ≡ some (m, r))
unfolding split_play
cut_over d current x r h k =
    let (m, e) = stoi_first d x h in
    (m, rw (le→ltb current 10 k, e) (ap (λ l. some (m, l)) (cut_end r _ (omega arith))))

abbrev play_text : ℕ → Card → Bytes
play_text n c = trick_message n (card_text c ∷ [])

play_text-short :
    (n : ℕ) (c : Card)
    → 1 ≤ n
    → n < 10
    → play_text n c ≡ codes "TRICK" ++ (b'0' + n) ∷ (card_text c ++ delimeter)
play_text-short n c l h =
    ap (λ s. codes "TRICK" ++ (to_string n ++ (s ++ delimeter))) (append-nil (card_text c))
    ∙ ap (λ s. codes "TRICK" ++ (s ++ (card_text c ++ delimeter))) (short_number n l h)

play_text-long :
    (n : ℕ) (c : Card)
    → 10 ≤ n
    → n ≤ 13
    → play_text n c ≡ codes "TRICK" ++ b'1' ∷ (b'0' + (n - 10)) ∷ (card_text c ++ delimeter)
play_text-long n c l h =
    ap (λ s. codes "TRICK" ++ (to_string n ++ (s ++ delimeter))) (append-nil (card_text c))
    ∙ ap (λ s. codes "TRICK" ++ (s ++ (card_text c ++ delimeter))) (long_number n l h)

-- A message of the trick's length of number is cut into its number and its card.
split_short :
    (n current : ℕ) (c : Card)
    → IsTrickNr n
    → n < 10
    → current < 10
    → split_play current (play_text n c) ≡ some (n, card_text c)
split_short n current c r h k =
    rw (play_text-short n c r.0 h) (cut_short n current (card_text c) h k)

split_long :
    (n current : ℕ) (c : Card)
    → IsTrickNr n
    → 10 ≤ n
    → 10 ≤ current
    → split_play current (play_text n c) ≡ some (n, card_text c)
split_long n current c r h k = rw (play_text-long n c h r.1) (
    cut_long (n - 10) current (card_text c) (omega arith) k
    ∙ ap (λ m. some (m, card_text c)) (omega arith))

-- The message of the current trick is cut into its number and its card.
pub split_own :
    (n : ℕ) (c : Card) → IsTrickNr n → split_play n (play_text n c) ≡ some (n, card_text c)
split_own n c r = elim (dec_lt n 10) [
  | yes h ↦ split_short n n c r h h
  | no h ↦ split_long n n c r (omega arith) (omega arith)
]

-- What is cut from the message of another trick has another number, or is no card.
abbrev pub Misread : ℕ → Option (ℕ × Bytes) → Type 0
Misread current o = (m : ℕ) × (t : Bytes) × (o ≡ some (m, t)) × ((m ≢ current) ⊎ (¬ IsCard t))

split_over :
    (n current : ℕ) (c : Card)
    → IsTrickNr n
    → n < 10
    → 10 ≤ current
    → Misread current (split_play current (play_text n c))
split_over n current c r h k = over (card_text c) refl
  where
    over : (t : Bytes) → card_text c ≡ t → Misread current (split_play current (play_text n c))
    over [] e = absurd (card_text-ne-nil c e)
    over (x ∷ t) e =
        let (m, q) = cut_over n current x t h k in
        (
          m,
          t,
          ap (split_play current) (
                play_text-short n c r.0 h
                ∙ ap (λ s. codes "TRICK" ++ (b'0' + n) ∷ (s ++ delimeter)) e)
              ∙ q,
          inr (tail-not-IsCard c x t e),
        )

pub split_other :
    (n current : ℕ) (c : Card)
    → IsTrickNr n
    → IsTrickNr current
    → n ≢ current
    → Misread current (split_play current (play_text n c))
split_other n current c r k ne = elim (dec_lt n 10) [
  | yes h ↦ elim (dec_lt current 10) [
    | yes l ↦ (n, card_text c, split_short n current c r h l, inl ne)
    | no l ↦ split_over n current c r h (omega arith)
  ]
  | no h ↦ elim (dec_lt current 10) [
    | yes l ↦ (
      1,
      (b'0' + (n - 10)) ∷ card_text c,
      ap (split_play current) (play_text-long n c (omega arith) r.1)
          ∙ cut_short 1 current ((b'0' + (n - 10)) ∷ card_text c) (omega arith) l,
      inr (longer-not-IsCard c (b'0' + (n - 10))),
    )
    | no l ↦ (n, card_text c, split_long n current c r (omega arith) (omega arith), inl ne)
  ]
]
