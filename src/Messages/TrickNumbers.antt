-- ===== src/Messages/TrickNumbers.antt =====
-- What the expressions of numbers match: the numbers of tricks and the types of deals.
use kierki_sik.Prelude.{
  ℕ, zero, suc, ◌≤◌, ◌≡◌, ◌↔◌, inl, inr, refl, sym, subst, ◌∙◌, All, [], ◌∷◌, true, Bytes, codes,
  arith,
}
use kierki_sik.Regex.{cls, has, Matches, trick_nr_re}
use kierki_sik.Decimal.{to_string}
use kierki_sik.Messages.Words.{has-cons, has-one}

has-All : (P : ℕ → Type 0) (cs : Bytes) (c : ℕ) → All P cs → has c cs ≡ true → P c
has-All P [] c all h = cc
has-All P (d ∷ cs) c all h = elim (has-cons c d cs h) [
  | inl e ↦ subst P (sym e) all.0
  | inr k ↦ has-All P cs c all.1 k
]

-- The numbers 1 to 13.
abbrev pub IsTrickNr : ℕ → Type 0
IsTrickNr n = (1 ≤ n) × (n ≤ 13)

abbrev pub NumberText : Bytes → Type 0
NumberText s = (n : ℕ) × IsTrickNr n × (s ≡ to_string n)

one_digit : All (λ c. NumberText (c ∷ [])) (codes "123456789")
unfolding to_string
one_digit = (
  (1, omega arith, refl),
  (
    (2, omega arith, refl),
    (
      (3, omega arith, refl),
      (
        (4, omega arith, refl),
        (
          (5, omega arith, refl),
          (
            (6, omega arith, refl),
            ((7, omega arith, refl), ((8, omega arith, refl), ((9, omega arith, refl), tt))),
          ),
        ),
      ),
    ),
  ),
)

two_digits : All (λ c. NumberText (b'1' ∷ c ∷ [])) (codes "0123")
unfolding to_string
two_digits = (
  (10, omega arith, refl),
  ((11, omega arith, refl), ((12, omega arith, refl), ((13, omega arith, refl), tt))),
)

trick_nr_read : (s : Bytes) → Matches trick_nr_re s → NumberText s
trick_nr_read s (inl (c, e, h)) =
    let (n, r, k) = has-All (λ c. NumberText (c ∷ [])) (codes "123456789") c one_digit h in
    (n, r, e ∙ k)
trick_nr_read s (inr (x, y, e, (c, ex, h), (d, ey, k))) =
    let (n, r, q) = has-All (λ c. NumberText (b'1' ∷ c ∷ [])) (codes "0123") d two_digits k in
    (n, r, e ∙ rw (ex, ey, has-one c b'1' h) q)

-- Numbers below sixteen, one after the other.
trick_nr_matched : (n : ℕ) → IsTrickNr n → Matches trick_nr_re (to_string n)
unfolding to_string
trick_nr_matched zero h = absurd (omega arith)
trick_nr_matched (suc zero) h = inl (49, refl, refl)
trick_nr_matched (suc (suc zero)) h = inl (50, refl, refl)
trick_nr_matched (suc (suc (suc zero))) h = inl (51, refl, refl)
trick_nr_matched (suc (suc (suc (suc zero)))) h = inl (52, refl, refl)
trick_nr_matched (suc (suc (suc (suc (suc zero))))) h = inl (53, refl, refl)
trick_nr_matched (suc (suc (suc (suc (suc (suc zero)))))) h = inl (54, refl, refl)
trick_nr_matched (suc (suc (suc (suc (suc (suc (suc zero))))))) h = inl (55, refl, refl)
trick_nr_matched (suc (suc (suc (suc (suc (suc (suc (suc zero)))))))) h = inl (56, refl, refl)
trick_nr_matched (suc (suc (suc (suc (suc (suc (suc (suc (suc zero))))))))) h = inl (57, refl, refl)
trick_nr_matched (suc (suc (suc (suc (suc (suc (suc (suc (suc (suc zero)))))))))) h =
    inr (codes "1", 48 ∷ [], refl, (b'1', refl, refl), (48, refl, refl))
trick_nr_matched (suc (suc (suc (suc (suc (suc (suc (suc (suc (suc (suc zero))))))))))) h =
    inr (codes "1", 49 ∷ [], refl, (b'1', refl, refl), (49, refl, refl))
trick_nr_matched (suc (suc (suc (suc (suc (suc (suc (suc (suc (suc (suc (suc zero)))))))))))) h =
    inr (codes "1", 50 ∷ [], refl, (b'1', refl, refl), (50, refl, refl))
trick_nr_matched (suc (suc (suc (suc (suc (suc (suc (suc (suc (suc (suc (suc (suc zero)))))))))))))
      h =
    inr (codes "1", 51 ∷ [], refl, (b'1', refl, refl), (51, refl, refl))
trick_nr_matched
      (suc (suc (suc (suc (suc (suc (suc (suc (suc (suc (suc (suc (suc (suc n)))))))))))))) h =
    absurd (omega arith)

pub Matches-trick_nr_re : (s : Bytes) → Matches trick_nr_re s ↔ NumberText s
Matches-trick_nr_re s = ((λ m. trick_nr_read s m), (λ h. rw (h.2) (trick_nr_matched h.0 h.1)))

abbrev pub IsDealType : ℕ → Type 0
IsDealType t = (1 ≤ t) × (t ≤ 7)

abbrev TypeText : Bytes → Type 0
TypeText s = (t : ℕ) × IsDealType t × (s ≡ to_string t)

seven_types : All (λ c. TypeText (c ∷ [])) (codes "1234567")
unfolding to_string
seven_types = (
  (1, omega arith, refl),
  (
    (2, omega arith, refl),
    (
      (3, omega arith, refl),
      (
        (4, omega arith, refl),
        ((5, omega arith, refl), ((6, omega arith, refl), ((7, omega arith, refl), tt))),
      ),
    ),
  ),
)

pub deal_type_read : (s : Bytes) → Matches (cls (codes "1234567")) s → TypeText s
deal_type_read s (c, e, h) =
    let (t, r, k) = has-All (λ d. TypeText (d ∷ [])) (codes "1234567") c seven_types h in
    (t, r, e ∙ k)

pub deal_type_matched : (t : ℕ) → IsDealType t → Matches (cls (codes "1234567")) (to_string t)
unfolding to_string
deal_type_matched zero h = absurd (omega arith)
deal_type_matched (suc zero) h = (49, refl, refl)
deal_type_matched (suc (suc zero)) h = (50, refl, refl)
deal_type_matched (suc (suc (suc zero))) h = (51, refl, refl)
deal_type_matched (suc (suc (suc (suc zero)))) h = (52, refl, refl)
deal_type_matched (suc (suc (suc (suc (suc zero))))) h = (53, refl, refl)
deal_type_matched (suc (suc (suc (suc (suc (suc zero)))))) h = (54, refl, refl)
deal_type_matched (suc (suc (suc (suc (suc (suc (suc zero))))))) h = (55, refl, refl)
deal_type_matched (suc (suc (suc (suc (suc (suc (suc (suc t)))))))) h = absurd (omega arith)
