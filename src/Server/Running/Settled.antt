-- ===== src/Server/Running/Settled.antt =====
-- The deal of states that only barriers tell apart.
use kierki_sik.Prelude.{
  ℕ, ◌+◌, ◌≡◌, refl, sym, ap, ◌∙◌, List, [], ◌∷◌, ◌++◌, Option, none, some, Bytes, arith,
}
use kierki_sik.Prelude.Int.{ℤ}
use kierki_sik.Points.{◌>>=◌, trick_result}
use kierki_sik.Seats.{seat_at}
use kierki_sik.Server.{Serwer, seat_index, no_scores}
use kierki_sik.Server.Deal.{
  add_to, begin_trick, give_turn, put_card, take_turns, end_trick, play_trick, play_tricks,
  begin_deal, end_deal, run_deal,
}
use kierki_sik.Server.Running.Outcomes.{settled}

abbrev pub settled_all : Option (List (Bytes × ℤ) × Serwer) → Option (List (Bytes × ℤ) × Serwer)
settled_all none = none
settled_all (some (points, s)) = some (points, settled s)

take_turns-settled :
    (beginning i : ℕ) (cards : List Bytes) (s : Serwer)
    → settled (take_turns beginning i cards s) ≡ take_turns beginning i cards (settled s)
unfolding take_turns put_card give_turn
take_turns-settled beginning i [] s = refl
take_turns-settled beginning i (card ∷ cards) s =
    take_turns-settled beginning (i + 1) cards (put_card card (give_turn beginning i s))

-- Turns of states that only barriers tell apart.
pub take_turns-alike :
    (beginning i : ℕ) (cards : List Bytes) (s t : Serwer)
    → settled s ≡ settled t
    → settled (take_turns beginning i cards s) ≡ settled (take_turns beginning i cards t)
take_turns-alike beginning i cards s t e =
    take_turns-settled beginning i cards s
    ∙ ap (take_turns beginning i cards) e
    ∙ sym (take_turns-settled beginning i cards t)

end_trick-settled :
    (beginning k number : ℕ) (points : List (Bytes × ℤ)) (s : Serwer)
    → settled_all (end_trick beginning k number (points, s))
      ≡ end_trick beginning k number (points, settled s)
unfolding end_trick
end_trick-settled beginning k number points s =
    go (trick_result s.cards_on_table (seat_at beginning) k number)
  where
    go :
        (o : Option (Bytes × ℤ))
        → settled_all (
            o >>= (λ (taker, gained). some (
              add_to taker gained points,
              record s {
                last_taker = taker;
                taken_tricks = s.taken_tricks ++ s.cards_on_table ∷ [];
                taken_takers = s.taken_takers ++ taker ∷ [];
              },
            )))
          ≡ (o >>= (λ (taker, gained). some (
            add_to taker gained points,
            record (settled s) {
              last_taker = taker;
              taken_tricks = s.taken_tricks ++ s.cards_on_table ∷ [];
              taken_takers = s.taken_takers ++ taker ∷ [];
            },
          )))
    go none = refl
    go (some (taker, gained)) = refl

-- Tricks that end in states that only barriers tell apart.
pub end_trick-alike :
    (beginning k number : ℕ) (points : List (Bytes × ℤ)) (s t : Serwer)
    → settled s ≡ settled t
    → settled_all (end_trick beginning k number (points, s))
      ≡ settled_all (end_trick beginning k number (points, t))
end_trick-alike beginning k number points s t e =
    end_trick-settled beginning k number points s
    ∙ ap (λ r. end_trick beginning k number (points, r)) e
    ∙ sym (end_trick-settled beginning k number points t)

play_trick-settled :
    (k number : ℕ) (table : List Bytes) (points : List (Bytes × ℤ)) (s : Serwer)
    → settled_all (play_trick k number table (points, s))
      ≡ play_trick k number table (points, settled s)
unfolding play_trick begin_trick
play_trick-settled k number table points s =
    let first = seat_index s.last_taker in
    end_trick-settled first k number points (take_turns first 0 table (begin_trick s))
    ∙ ap (λ r. end_trick first k number (points, r))
        (take_turns-settled first 0 table (begin_trick s))

pub bind-settled_all :
    (f : List (Bytes × ℤ) × Serwer → Option (List (Bytes × ℤ) × Serwer))
    → ((points : List (Bytes × ℤ)) (s : Serwer)
        → settled_all (f (points, s)) ≡ f (points, settled s))
    → (o : Option (List (Bytes × ℤ) × Serwer)) → settled_all (o >>= f) ≡ (settled_all o >>= f)
bind-settled_all f e none = refl
bind-settled_all f e (some (points, s)) = e points s

pub play_tricks-settled :
    (k number : ℕ) (tables : List (List Bytes)) (points : List (Bytes × ℤ)) (s : Serwer)
    → settled_all (play_tricks k number tables (points, s))
      ≡ play_tricks k number tables (points, settled s)
unfolding play_tricks
play_tricks-settled k number [] points s = refl
play_tricks-settled k number (table ∷ tables) points s =
    bind-settled_all (play_tricks k (number + 1) tables)
      (λ p t. play_tricks-settled k (number + 1) tables p t) (play_trick k number table (points, s))
    ∙ ap (λ o. o >>= play_tricks k (number + 1) tables) (play_trick-settled k number table points s)

pub play_tricks-alike :
    (k number : ℕ) (tables : List (List Bytes)) (points : List (Bytes × ℤ)) (s t : Serwer)
    → settled s ≡ settled t
    → settled_all (play_tricks k number tables (points, s))
      ≡ settled_all (play_tricks k number tables (points, t))
play_tricks-alike k number tables points s t e =
    play_tricks-settled k number tables points s
    ∙ ap (λ r. play_tricks k number tables (points, r)) e
    ∙ sym (play_tricks-settled k number tables points t)

abbrev points_of : List (Bytes × ℤ) → Option (List (Bytes × ℤ) × Serwer) → List (Bytes × ℤ)
points_of points none = points
points_of points (some (p, s)) = p

abbrev state_of : Serwer → Option (List (Bytes × ℤ) × Serwer) → Serwer
state_of s none = s
state_of s (some (p, t)) = t

-- What is there but for the barriers is there.
pub settled_all-some :
    (o : Option (List (Bytes × ℤ) × Serwer)) (points : List (Bytes × ℤ)) (t : Serwer)
    → settled_all o ≡ some (points, t)
    → (s : Serwer) × (o ≡ some (points, s)) × (settled s ≡ t)
settled_all-some none points t e = absurd (ground arith)
settled_all-some (some (p, s)) points t e =
    (s, ap (λ l. some (l, s)) (ap (points_of points) e), ap (state_of t) e)

-- Of two that are alike, the one is there if the other is.
pub settled_all-defined :
    (o o' : Option (List (Bytes × ℤ) × Serwer)) (state : List (Bytes × ℤ) × Serwer)
    → settled_all o' ≡ settled_all o
    → o ≡ some state
    → (state' : List (Bytes × ℤ) × Serwer) × (o' ≡ some state')
settled_all-defined o o' (points, s) e q =
    let (t, r, a) = settled_all-some o' points (settled s) (e ∙ ap settled_all q) in
    ((points, t), r)

-- An option with a value behind a bind had one before it.
pub bind_some :
    {A B : Type 0}
    → (o : Option A) (f : A → Option B) (b : B) → (o >>= f) ≡ some b
    → (a : A) × (o ≡ some a) × (f a ≡ some b)
bind_some none f b e = absurd (ground arith)
bind_some (some a) f b e = (a, refl, e)

-- Deals of states that only barriers tell apart.
pub run_deal-alike :
    (k : ℕ) (seat : Bytes) (tables : List (List Bytes)) (s t s' : Serwer)
    → settled s ≡ settled t
    → run_deal k seat tables s ≡ some s'
    → (t' : Serwer) × (run_deal k seat tables t ≡ some t') × (settled t' ≡ settled s')
unfolding run_deal begin_deal end_deal
run_deal-alike k seat tables s t s' e q =
    let ((p, u), x, y) =
      bind_some (play_tricks k 1 tables (no_scores, begin_deal k seat s))
        (λ state. some (end_deal state)) s' q in
    let (v, z, a) =
      settled_all-some (play_tricks k 1 tables (no_scores, begin_deal k seat t)) p (settled u) (
        sym (
          play_tricks-alike k 1 tables no_scores (begin_deal k seat s) (begin_deal k seat t)
            (ap (begin_deal k seat) e))
        ∙ ap settled_all x) in
    (
      end_deal (p, v),
      ap (λ o. o >>= (λ state. some (end_deal state))) z,
      ap (λ r. end_deal (p, r)) a ∙ ended (end_deal (p, u)) s' y,
    )
  where
    ended : (a b : Serwer) → some a ≡ some b → settled a ≡ settled b
    ended a b eq = ap (λ o. settled_state o) eq
      where
        settled_state : Option Serwer → Serwer
        settled_state none = settled a
        settled_state (some c) = settled c
