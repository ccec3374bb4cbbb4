-- ===== src/Points/Deal.antt =====
-- The points of a whole deal: thirteen tricks that use up the deck.
use mathlib.Core.List.{Perm, Permᴰ}
use mathlib.Core.Logic.{∥∥₁_elim}
use native.Mathlib.Nat.{ℕ_set}
use kierki_sik.Prelude.{
  ℕ, zero, suc, ◌+◌, ◌≡◌, refl, ap, ◌∙◌, List, [], ◌∷◌, ◌++◌, arith, ◌==◌, if◌then◌else◌, length,
  ◌≤◌,
}
use kierki_sik.Cards.{Card, deck}
use kierki_sik.Points.Cost.{
  total, heart_cost, queen_cost, mister_cost, hearts_king_cost, late_cost, deal_cost,
}

total-append : (f : Card → ℕ) (xs ys : List Card) → total f (xs ++ ys) ≡ total f xs + total f ys
total-append f [] ys = omega arith
total-append f (x ∷ xs) ys = omega (arith, total-append f xs ys)

total-permᴰ : (f : Card → ℕ) {xs ys : List Card} → Permᴰ xs ys → total f xs ≡ total f ys
total-permᴰ f Permᴰ.nil = refl
total-permᴰ f (Permᴰ.cons e p) = omega (arith, ap f e, total-permᴰ f p)
total-permᴰ f (Permᴰ.swap e e') = omega (arith, ap f e, ap f e')
total-permᴰ f (Permᴰ.trans p q) = total-permᴰ f p ∙ total-permᴰ f q

total-perm : (f : Card → ℕ) {xs ys : List Card} → Perm xs ys → total f xs ≡ total f ys
total-perm f p = ∥∥₁_elim p (ℕ_set _ _) (total-permᴰ f)

-- The cards of all tricks, and the prices of the tricks from number `n` on.
abbrev pub cards_of : List (List Card) → List Card
cards_of [] = []
cards_of (cs ∷ tricks) = cs ++ cards_of tricks

abbrev pub price_of : ℕ → ℕ → List (List Card) → ℕ
price_of t n [] = 0
price_of t n (cs ∷ tricks) = deal_cost t n cs + price_of t (n + 1) tricks

price_of_tricks : (n : ℕ) (ts : List (List Card)) → price_of 1 n ts ≡ length ts
price_of_tricks n [] = refl
price_of_tricks n (cs ∷ ts) = omega (arith, price_of_tricks (n + 1) ts)

price_of_hearts : (n : ℕ) (ts : List (List Card)) → price_of 2 n ts ≡ total heart_cost (cards_of ts)
price_of_hearts n [] = refl
price_of_hearts n (cs ∷ ts) =
    omega (arith, price_of_hearts (n + 1) ts, total-append heart_cost cs (cards_of ts))

price_of_queens :
    (n : ℕ) (ts : List (List Card)) → price_of 3 n ts ≡ total (λ x. queen_cost x.rank) (cards_of ts)
price_of_queens n [] = refl
price_of_queens n (cs ∷ ts) =
    omega
      (arith, price_of_queens (n + 1) ts, total-append (λ x. queen_cost x.rank) cs (cards_of ts))

price_of_misters :
    (n : ℕ) (ts : List (List Card))
    → price_of 4 n ts ≡ total (λ x. mister_cost x.rank) (cards_of ts)
price_of_misters n [] = refl
price_of_misters n (cs ∷ ts) =
    omega
      (arith, price_of_misters (n + 1) ts, total-append (λ x. mister_cost x.rank) cs (cards_of ts))

price_of_king :
    (n : ℕ) (ts : List (List Card)) → price_of 5 n ts ≡ total hearts_king_cost (cards_of ts)
price_of_king n [] = refl
price_of_king n (cs ∷ ts) =
    omega (arith, price_of_king (n + 1) ts, total-append hearts_king_cost cs (cards_of ts))

price_of_bandit :
    (n : ℕ) (ts : List (List Card))
    → price_of 7 n ts
      ≡ price_of 1 n ts
        + price_of 2 n ts
        + price_of 3 n ts
        + price_of 4 n ts
        + price_of 5 n ts
        + price_of 6 n ts
price_of_bandit n [] = refl
price_of_bandit n (cs ∷ ts) = omega (arith, price_of_bandit (n + 1) ts)

late_sum : ℕ → ℕ → ℕ
late_sum n zero = 0
late_sum n (suc k) = late_cost n + late_sum (n + 1) k

price_of_late : (n : ℕ) (ts : List (List Card)) → price_of 6 n ts ≡ late_sum n (length ts)
unfolding late_sum
price_of_late n [] = refl
price_of_late n (cs ∷ ts) = omega (arith, price_of_late (n + 1) ts)

late_sum_deal : late_sum 1 13 ≡ 80
unfolding late_sum
late_sum_deal = refl

-- The points that a deal of type `t` hands out in all.
abbrev pub whole_deal : ℕ → ℕ
whole_deal t =
    if t == 1
    then 13
    else if t == 2
    then 13
    else if t == 3
    then 20
    else if t == 4
    then 16
    else if t == 5
    then 18
    else if t == 6
    then 80
    else 160

-- Thirteen tricks with all the cards, in whatever order they are played and by whomever.
module _ (ts : List (List Card)) (thirteen : length ts ≡ 13)
    (all_cards : Perm (cards_of ts) deck) where
  hearts_in_deal : price_of 2 1 ts ≡ 13
  hearts_in_deal = price_of_hearts 1 ts ∙ total-perm heart_cost all_cards

  queens_in_deal : price_of 3 1 ts ≡ 20
  queens_in_deal = price_of_queens 1 ts ∙ total-perm (λ x. queen_cost x.rank) all_cards

  misters_in_deal : price_of 4 1 ts ≡ 16
  misters_in_deal = price_of_misters 1 ts ∙ total-perm (λ x. mister_cost x.rank) all_cards

  king_in_deal : price_of 5 1 ts ≡ 18
  king_in_deal = price_of_king 1 ts ∙ total-perm hearts_king_cost all_cards

  late_in_deal : price_of 6 1 ts ≡ 80
  late_in_deal = price_of_late 1 ts ∙ ap (late_sum 1) thirteen ∙ late_sum_deal

  pub price_of-whole_deal : (t : ℕ) → 1 ≤ t → t ≤ 7 → price_of t 1 ts ≡ whole_deal t
  price_of-whole_deal zero low high = absurd (omega arith)
  price_of-whole_deal (suc zero) low high = price_of_tricks 1 ts ∙ thirteen
  price_of-whole_deal (suc (suc zero)) low high = hearts_in_deal
  price_of-whole_deal (suc (suc (suc zero))) low high = queens_in_deal
  price_of-whole_deal (suc (suc (suc (suc zero)))) low high = misters_in_deal
  price_of-whole_deal (suc (suc (suc (suc (suc zero))))) low high = king_in_deal
  price_of-whole_deal (suc (suc (suc (suc (suc (suc zero)))))) low high = late_in_deal
  price_of-whole_deal (suc (suc (suc (suc (suc (suc (suc zero))))))) low high = omega (
    arith,
    price_of_bandit 1 ts,
    price_of_tricks 1 ts,
    hearts_in_deal,
    queens_in_deal,
    misters_in_deal,
    king_in_deal,
    late_in_deal,
  )
  price_of-whole_deal (suc (suc (suc (suc (suc (suc (suc (suc t)))))))) low high =
      absurd (omega arith)
