-- ===== src/Server/Deal/Game.antt =====
-- A whole game: the deals of the game file, played one after the other.
use kierki_sik.Prelude.{
  ℕ, zero, suc, ◌+◌, ◌*◌, ◌^◌, ◌<◌, ◌≤◌, ◌≡◌, refl, ap, ◌∙◌, List, [], ◌∷◌, map, false, Option,
  some, Bytes, length, All, arith, same,
}
use mathlib.Core.List.{Perm}
use kierki_sik.Prelude.Int.{ℤ, pos, ◌+ℤ◌, int_laws}
use kierki_sik.Cards.{deck}
use kierki_sik.Seats.{Seat, north, seat_text}
use kierki_sik.Regex.{Boost}
use kierki_sik.Points.Deal.{cards_of, whole_deal}
use kierki_sik.FileReader.{FileReader, read_next_deal, read, end_of_file}
use kierki_sik.FileReader.Deals.{
  Deal, deals_text, raw, after, opened, next_deal, next_end, next_fresh,
}
use kierki_sik.StdMap.{at_or, lookup}
use kierki_sik.Server.{Serwer, new_serwer}
use kierki_sik.Server.Deal.{prepare_deal, run_deal, run_game}
use kierki_sik.Server.Deal.Tallies.{tally, sum, +ℤ-zero, +ℤ-later}
use kierki_sik.Server.Deal.Scores.{Trick, cards_in, table_of, run_deal-whole_deal}

-- A deal of the file and the tricks that its play puts on the table.
pub record Play : Type 0 where
  pub deal : Deal
  pub tricks : List Trick

abbrev pub plays_text : List Play → Bytes
plays_text ps = deals_text (map (λ p. p.deal) ps)

abbrev pub tables : List Play → List (List (List Bytes))
tables = map (λ p. map table_of p.tricks)

-- A type from 1 to 7, and thirteen tricks in which every card is played.
abbrev pub IsFair : Play → Type 0
IsFair p =
    (1 ≤ p.deal.trick_type)
    × (p.deal.trick_type ≤ 7)
    × (length p.tricks ≡ 13)
    × Perm (cards_of (map cards_in p.tricks)) deck

-- The points that the deals hand out in all.
abbrev pub worth : List Play → ℕ
worth [] = 0
worth (p ∷ ps) = whole_deal p.deal.trick_type + worth ps

-- The server after the game, in which nobody has more new points than there are.
pub record GameOver (g : Seat → ℤ) (points : ℕ) (outcome : Option Serwer) : Type 0 where
  pub server : Serwer
  pub totals : Seat → ℤ
  pub ends : outcome ≡ some server
  pub told : server.total_scores ≡ tally totals
  pub handed_out : sum totals ≡ sum g +ℤ pos points
  pub within : (y : Seat) → (p : ℕ) × (totals y ≡ g y +ℤ pos p) × (p ≤ points)

-- No type of deal hands out more than 160 points.
whole_deal_bound : (t : ℕ) → whole_deal t ≤ 160
whole_deal_bound t = ground arith

types_read : (ps : List Play) → All IsFair ps → All (λ d. d.trick_type < 10) (map (λ p. p.deal) ps)
types_read [] h = tt
types_read (p ∷ ps) h = (omega (arith, h.0.1), types_read ps h.1)

sum_later :
    (f g : Seat → ℤ) (m n : ℕ) (t : ℤ)
    → sum f ≡ pos m
    → t ≡ sum (λ y. g y +ℤ f y) +ℤ pos n
    → t ≡ sum g +ℤ pos (m + n)
sum_later f g m n t e d = grind (int_laws, e, d)

play_read :
    (boost : Boost) (n : ℕ) (file : Option Bytes) (r r' : FileReader) (t : List (List Bytes))
    (rest : List (List (List Bytes))) (s s' : Serwer)
    → read_next_deal file r ≡ read r'
    → run_deal r'.trick_type r'.seat t (prepare_deal boost r'.seat r'.cards s) ≡ some s'
    → run_game boost (suc n) file r (t ∷ rest) s ≡ run_game boost n file r' rest s'
unfolding run_game
play_read boost n file r r' t rest s s' e d = rw (e, d, run_game) refl

game_end :
    (boost : Boost) (n : ℕ) (file : Option Bytes) (r r' : FileReader) (t : List (List (List Bytes)))
    (s : Serwer)
    → read_next_deal file r ≡ end_of_file r'
    → run_game boost (suc n) file r t s ≡ some s
unfolding run_game
game_end boost n file r r' t s e = rw (e, run_game) refl

game_opened :
    (boost : Boost) (n : ℕ) (ps : List Play) (file : Option Bytes) (r : FileReader) (g h : Seat → ℤ)
    (s : Serwer)
    → All IsFair ps
    → length ps < n
    → s.total_scores ≡ tally g
    → s.round_scores ≡ tally h
    → GameOver g (worth ps) (run_game boost n file (opened (plays_text ps) r) (tables ps) s)
unfolding prepare_deal
game_opened boost zero ps file r g h s fair l totals rounds = absurd (omega arith)
game_opened boost (suc n) [] file r g h s fair l totals rounds =
    let (r', e) = next_end file r in
    record {
      server = s;
      totals = g;
      ends = game_end boost n file (opened [] r) r' [] s e;
      told = totals;
      handed_out = +ℤ-zero (sum g);
      within = λ y. (0, +ℤ-zero (g y), omega arith);
    }
game_opened boost (suc n) (p ∷ ps) file r g h s ((low, high, thirteen, all), fair) l totals rounds =
    let (f, s', played, shared, each, rounds', totals', _, _) =
      run_deal-whole_deal p.deal.trick_type p.deal.starter p.tricks g h
        (prepare_deal boost (seat_text p.deal.starter) (raw p.deal).2 s) low high thirteen all
        totals rounds in
    let next = after p.deal (plays_text ps) (opened [] r) in
    let rest =
      game_opened boost n ps file next (λ y. g y +ℤ f y) f s' fair (omega arith) totals' rounds' in
    record {
      server = rest.server;
      totals = rest.totals;
      ends =
          play_read boost n file (opened (plays_text (p ∷ ps)) r) next (map table_of p.tricks)
            (tables ps) s s' (next_deal file p.deal (plays_text ps) r (omega arith)) played
          ∙ rest.ends;
      told = rest.told;
      handed_out =
          sum_later f g (whole_deal p.deal.trick_type) (worth ps) (sum rest.totals) shared
            rest.handed_out;
      within = λ y.
          let (a, ea, la) = each y in
          let (b, eb, lb) = rest.within y in
          (a + b, eb ∙ ap (λ z. g y +ℤ z +ℤ pos b) ea ∙ +ℤ-later (g y) a b, omega arith);
    }

game_fresh :
    (boost : Boost) (n : ℕ) (text : Bytes) (r : FileReader) (t : List (List (List Bytes)))
    (s : Serwer)
    → r.b_was_stream_opened ≡ false
    → run_game boost (suc n) (some text) r t s
      ≡ run_game boost (suc n) (some text) (opened text r) t s
unfolding run_game
game_fresh boost n text r t s fresh = rw (next_fresh text r fresh, run_game) refl

-- A game whose file lists deals of types 1 to 7, each played in thirteen tricks with all the cards,
-- by whomever and in whatever order, runs to its end. The new totals of the four seats are together
-- as many points as the deals hand out, and no seat gets a negative number of them or more than all.
-- Both maps of scores have the four seats at the start.
pub run_game-GameOver :
    (boost : Boost) (ps : List Play) (r : FileReader) (g h : Seat → ℤ) (s : Serwer)
    → All IsFair ps
    → r.b_was_stream_opened ≡ false
    → s.total_scores ≡ tally g
    → s.round_scores ≡ tally h
    → GameOver g
        (worth ps)
        (run_game boost (suc (length ps)) (some (plays_text ps)) r (tables ps) s)
run_game-GameOver boost ps r g h s fair fresh totals rounds =
    rw (game_fresh boost (length ps) (plays_text ps) r (tables ps) s fresh) (
      game_opened boost (suc (length ps)) ps (some (plays_text ps)) r g h s fair (omega arith)
        totals rounds)

worth_bound : (ps : List Play) → All IsFair ps → worth ps ≤ 160 * length ps
worth_bound [] fair = omega arith
worth_bound (p ∷ ps) ((_, _, _, _), fair) =
    omega (arith, whole_deal_bound p.deal.trick_type, worth_bound ps fair)

score_of-tally : (y : Seat) (f : Seat → ℤ) → at_or (pos 0) (seat_text y) (tally f) ≡ f y
unfolding at_or lookup same
score_of-tally north f = refl
score_of-tally _ f = refl

from_zero : (a : ℤ) (p : ℕ) → a ≡ pos 0 +ℤ pos p → a ≡ pos p
unfolding ◌+ℤ◌
from_zero a p e = ground (arith, e)

-- A server that was just created keeps every total within the 32 bits of an `int32_t`, for a game
-- of fewer than 2^31 / 160 deals of types 1 to 7, each played in thirteen tricks with all the
-- cards: the game runs to its end, and each seat's total is a number from 0 to 2^31 - 1.
pub run_game-new_serwer :
    (boost : Boost) (ps : List Play) (r : FileReader) (timeout trick_type : ℕ)
    → All IsFair ps
    → r.b_was_stream_opened ≡ false
    → 160 * length ps < 2 ^ 31
    → (s : Serwer) × (run_game boost
          (suc (length ps))
          (some (plays_text ps))
          r
          (tables ps)
          (new_serwer timeout trick_type)
        ≡ some s)
      × ((y : Seat) → (p : ℕ) × (at_or (pos 0) (seat_text y) s.total_scores ≡ pos p) × (p < 2 ^ 31))
unfolding new_serwer
run_game-new_serwer boost ps r timeout trick_type fair fresh few =
    let over =
      run_game-GameOver boost ps r (λ _. pos 0) (λ _. pos 0) (new_serwer timeout trick_type) fair
        fresh refl refl in
    (
      over.server,
      over.ends,
      λ y.
          let (p, e, l) = over.within y in
          (
            p,
            ap (at_or (pos 0) (seat_text y)) over.told
                ∙ score_of-tally y over.totals
                ∙ from_zero (over.totals y) p e,
            omega (arith, worth_bound ps fair),
          ),
    )
