-- ===== src/Server/Running/Game.antt =====
-- serwer.cpp, `Serwer::run_game` as the main thread runs it, and what a game that ends has handed out.
use kierki_sik.Prelude.{
  ℕ, zero, suc, ◌≡◌, refl, sym, ap, ◌∙◌, List, [], ◌∷◌, ◌++◌, Option, none, some, Bytes, map,
  length, false, arith, All, subst,
}
use kierki_sik.Prelude.Int.{ℤ}
use kierki_sik.Points.{◌>>=◌ as and_then}
use kierki_sik.Regex.{Boost}
use kierki_sik.Seats.{Seat}
use kierki_sik.FileReader.{
  FileReader, Outcome, not_opened, threw, end_of_file, read, read_next_deal,
}
use kierki_sik.Server.{Serwer}
use kierki_sik.Server.Deal.{prepare_deal, run_deal, run_game}
use kierki_sik.Server.Deal.Tallies.{tally}
use kierki_sik.Server.Deal.Game.{
  Play, plays_text, tables, IsFair, worth, GameOver, run_game-GameOver,
}
use kierki_sik.Server.Running.{
  Desk, Course, going, thrown, waiting, Turn, closing, ◌>>=◌, conduct_deal,
}
use kierki_sik.Server.Running.Outcomes.{settled, Goes, bind-Goes, map-Goes, start-Goes, closed_once}
use kierki_sik.Server.Running.Settled.{run_deal-alike}
use kierki_sik.Server.Running.Sound.{table_of_turns, Dealt, conduct_deal-run_deal}

-- At most `n` reads; the deals are played in the next of the lists of turns. A deal that returns -1
-- ends the game with 1; the end of the file closes the server.
unfoldable pub conduct_game :
    Boost → ℕ → Option Bytes → FileReader → List (List (List Turn)) → Desk → Course
unfolding conduct_deal
conduct_game boost zero file r plays d = waiting d
conduct_game boost (suc n) file r plays d = elim (read_next_deal file r) [
  | not_opened ↦ going (closing [] d)
  | threw ↦ thrown d
  | end_of_file r' ↦ going (closing [] d)
  | read r' ↦ elim plays [
    | [] ↦ waiting d
    | tricks ∷ rest ↦
        conduct_deal r'.trick_type r'.seat tricks
          (record d { server = prepare_deal boost r'.seat r'.cards d.server })
        >>= conduct_game boost n file r' rest
  ]
]

-- The tables of a deal's turns.
abbrev pub tables_of : List (List Turn) → List (List Bytes)
tables_of = map table_of_turns

-- The last thing done was `close_server()`.
abbrev pub Shut : Desk → Type 0
Shut e = (before : List Bytes) × (e.closings ≡ before ++ [] ∷ [])

-- The state is what the game leaves behind, but for the barriers, and the server is closed.
abbrev Gamed : Option Serwer → Desk → Type 0
Gamed o e = (t : Serwer) × (o ≡ some t) × (settled e.server ≡ settled t) × Shut e

next_deal :
    (k : ℕ) (seat : Bytes) (tricks : List (List Turn)) (d : Desk) (s : Serwer) (f : Desk → Course)
    (g : Serwer → Option Serwer)
    → settled d.server ≡ settled s
    → ((u : Desk) (t : Serwer) → settled u.server ≡ settled t → Goes u (Gamed (g t)) (f u))
    → Goes d
        (Gamed (and_then (run_deal k seat (tables_of tricks) s) g))
        (conduct_deal k seat tricks d >>= f)
next_deal k seat tricks d s f g e more =
    bind-Goes d (Dealt k seat (tables_of tricks) d.server)
      (Gamed (and_then (run_deal k seat (tables_of tricks) s) g)) _ _
      (conduct_deal-run_deal k seat tricks d)
      (λ u (t, q, a).
        let (t', q', a') = run_deal-alike k seat (tables_of tricks) d.server s t e q in
        map-Goes u (Gamed (g t')) (Gamed (and_then (run_deal k seat (tables_of tricks) s) g)) _
          (more u t' (a ∙ sym a')) (λ v (w, x, y, z). (w, ap (λ o. and_then o g) q' ∙ x, y, z)))

-- A game that ends without a return of 1 has played its deals, and the state is what they leave.
conduct_game-Gamed :
    (boost : Boost) (n : ℕ) (file : Option Bytes) (r : FileReader) (plays : List (List (List Turn)))
    (d : Desk) (s : Serwer)
    → settled d.server ≡ settled s
    → Goes d
        (Gamed (run_game boost n file r (map tables_of plays) s))
        (conduct_game boost n file r plays d)
unfolding conduct_game run_game prepare_deal
conduct_game-Gamed boost zero file r plays d s e = tt
conduct_game-Gamed boost (suc n) file r [] d s e = go (read_next_deal file r)
  where
    go :
        (o : Outcome)
        → Goes d
            (Gamed (elim o [
              | not_opened ↦ some s
              | threw ↦ none
              | end_of_file r' ↦ some s
              | read r' ↦ none
            ]))
            (elim o [
              | not_opened ↦ going (closing [] d)
              | threw ↦ thrown d
              | end_of_file r' ↦ going (closing [] d)
              | read r' ↦ waiting d
            ])
    go not_opened = ((s, refl, e, (d.closings, refl)), omega (arith, closed_once d []))
    go threw = tt
    go (end_of_file r') = ((s, refl, e, (d.closings, refl)), omega (arith, closed_once d []))
    go (read r') = tt
conduct_game-Gamed boost (suc n) file r (tricks ∷ rest) d s e =
    go (read_next_deal file r) (λ r' u t a. conduct_game-Gamed boost n file r' rest u t a)
  where
    go :
        (o : Outcome)
        → ((r' : FileReader) (u : Desk) (t : Serwer)
            → settled u.server ≡ settled t
            → Goes u
                (Gamed (run_game boost n file r' (map tables_of rest) t))
                (conduct_game boost n file r' rest u))
        → Goes d
            (Gamed (elim o [
              | not_opened ↦ some s
              | threw ↦ none
              | end_of_file r' ↦ some s
              | read r' ↦
                  and_then
                    (run_deal r'.trick_type r'.seat
                      (tables_of tricks)
                      (prepare_deal boost r'.seat r'.cards s))
                    (λ s'. run_game boost n file r' (map tables_of rest) s')
            ]))
            (elim o [
              | not_opened ↦ going (closing [] d)
              | threw ↦ thrown d
              | end_of_file r' ↦ going (closing [] d)
              | read r' ↦
                  conduct_deal r'.trick_type r'.seat tricks
                    (record d { server = prepare_deal boost r'.seat r'.cards d.server })
                  >>= conduct_game boost n file r' rest
            ])
    go not_opened more = ((s, refl, e, (d.closings, refl)), omega (arith, closed_once d []))
    go threw more = tt
    go (end_of_file r') more = ((s, refl, e, (d.closings, refl)), omega (arith, closed_once d []))
    go (read r') more =
        start-Goes d (record d { server = prepare_deal boost r'.seat r'.cards d.server }) _ _
          (omega arith)
          (next_deal r'.trick_type r'.seat tricks
            (record d { server = prepare_deal boost r'.seat r'.cards d.server })
            (prepare_deal boost r'.seat r'.cards s) (conduct_game boost n file r' rest)
            (λ s'. run_game boost n file r' (map tables_of rest) s')
            (ap (prepare_deal boost r'.seat r'.cards) e) (more r'))

handed_out :
    (g : Seat → ℤ) (points : ℕ) (o : Option Serwer) (e : Desk)
    → GameOver g points o
    → Gamed o e
    → GameOver g points (some e.server)
handed_out g points o e over (t, q, a, shut) = record {
  server = e.server;
  totals = over.totals;
  ends = refl;
  told =
      ap (λ s. s.total_scores) a
      ∙ ap (λ s. s.total_scores) (ended t over.server (sym q ∙ over.ends))
      ∙ over.told;
  handed_out = over.handed_out;
  within = over.within;
}
  where
    ended : (s t : Serwer) → some s ≡ some t → s ≡ t
    ended s t eq = cc

-- A game whose file lists deals of types 1 to 7, each played in thirteen tricks with all the cards,
-- hands out exactly the points of its deals if it ends without a return of 1, whatever the pipes held
-- and however many players left during the deals and the barriers: no seat gets a negative number of
-- them or more than all, and the last act is to close the server. A return of 1 has called
-- `close_server`, too. Both maps of scores have the four seats at the start.
pub conduct_game-GameOver :
    (boost : Boost) (ps : List Play) (r : FileReader) (g h : Seat → ℤ)
    (plays : List (List (List Turn))) (d : Desk)
    → All IsFair ps
    → r.b_was_stream_opened ≡ false
    → d.server.total_scores ≡ tally g
    → d.server.round_scores ≡ tally h
    → map tables_of plays ≡ tables ps
    → Goes d
        (λ e. GameOver g (worth ps) (some e.server) × Shut e)
        (conduct_game boost (suc (length ps)) (some (plays_text ps)) r plays d)
conduct_game-GameOver boost ps r g h plays d fair fresh totals rounds played =
    let o =
      run_game boost (suc (length ps)) (some (plays_text ps)) r (map tables_of plays) d.server in
    map-Goes d (Gamed o) (λ e. GameOver g (worth ps) (some e.server) × Shut e) _
      (conduct_game-Gamed boost (suc (length ps)) (some (plays_text ps)) r plays d d.server refl)
      (λ e (t, q, a, shut). (
        handed_out g (worth ps) o e
            (subst
              (λ ts.
                GameOver g (worth ps)
                  (run_game boost (suc (length ps)) (some (plays_text ps)) r ts d.server))
              (sym played) (run_game-GameOver boost ps r g h d.server fair fresh totals rounds))
            (t, q, a, shut),
        shut,
      ))
