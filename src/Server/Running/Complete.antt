-- ===== src/Server/Running/Complete.antt =====
-- The main thread's control flow plays every deal: a run in which nothing goes wrong exists for each.
use kierki_sik.Prelude.{
  ℕ, ◌+◌, ◌≤◌, ◌≡◌, refl, sym, ap, subst, ◌∙◌, List, [], ◌∷◌, some, Bytes, length, map, arith,
}
use kierki_sik.Prelude.Int.{ℤ}
use kierki_sik.Points.{◌>>=◌}
use kierki_sik.Server.{Serwer, taken, deal_signal, scores, seat_index, no_scores}
use kierki_sik.Server.Deal.{
  begin_deal, begin_trick, take_turns, end_trick, play_trick, play_tricks, end_deal, run_deal,
}
use kierki_sik.Server.Running.{
  Desk, Course, going, Turn, score_trick, run_trick, run_tricks, conduct_deal, barrier,
}
use kierki_sik.Server.Running.Outcomes.{settled, Goes, Same, tell_all-Goes}
use kierki_sik.Server.Running.Settled.{
  bind_some, settled_all, end_trick-alike, play_tricks-alike, settled_all-some, settled_all-defined,
}
use kierki_sik.Server.Running.Sound.{
  table_of_turns, Becomes, run_turns-Becomes, run_trick-Yields, conduct_deal-run_deal,
}
use kierki_sik.Server.Running.Reached.{
  leading, coming, Reaches, then-Reaches, bind-Reaches, count-Reaches, tell_all-Reaches,
  barrier-Reaches,
}
use kierki_sik.Server.Running.Answered.{answered_turns, table-answered_turns, run_turns-Reaches}

gone : (d e : Desk) (P : Desk → Type 0) (x : Course) → Goes d P x → x ≡ going e → P e
gone d e P x g q = (subst (λ y. Goes d P y) q g).0

score_trick-Reaches :
    (first k number : ℕ) (d : Desk) (state : List (Bytes × ℤ) × Serwer)
    → end_trick first k number (d.scores, d.server) ≡ some state
    → Reaches 0 0 d (score_trick first k number d)
unfolding score_trick
score_trick-Reaches first k number d (points, s) e = record {
  after = record d { server = s; scores = points };
  runs = rw (score_trick, e) refl;
  writes = omega arith;
  barriers = omega arith;
}

run_trick-Reaches :
    (k number : ℕ) (table : List Bytes) (d : Desk) (state : List (Bytes × ℤ) × Serwer)
    → play_trick k number table (d.scores, d.server) ≡ some state
    → length table + 12 ≤ leading d.writes
    → 1 ≤ coming d.barriers
    → Reaches
        (length table + 12)
        1
        d
        (run_trick k number (answered_turns (seat_index d.server.last_taker) 0 table) d)
unfolding run_trick play_trick
run_trick-Reaches k number table d state e l h =
    let first = seat_index d.server.last_taker in
    let d' = record d { server = begin_trick d.server } in
    let turns = answered_turns first 0 table in
    count-Reaches (length table + 0 + 4 + 8) 1 (length table + 12) 1 d d' _ (omega arith) refl refl
      refl
      (bind-Reaches (length table + 0 + 4) 0 8 1 d' _ _
        (bind-Reaches (length table + 0) 0 4 0 d' _ _
          (bind-Reaches (length table) 0 0 0 d' _ _
            (run_turns-Reaches first 0 table d' (omega arith))
            (λ u q w b.
              let (state', r) = ended u (gone d' u _ _ (run_turns-Becomes first 0 turns d') q) in
              score_trick-Reaches first k number u state' r))
          (λ u q w b. tell_all-Reaches taken u (omega arith)))
        (λ u q w b. barrier-Reaches u (omega arith) (omega arith)))
  where
    ended :
        (u : Desk)
        → Becomes
            (take_turns
              (seat_index d.server.last_taker)
              0
              (table_of_turns (answered_turns (seat_index d.server.last_taker) 0 table))
              (begin_trick d.server))
            (record d { server = begin_trick d.server })
            u
        → (state' : List (Bytes × ℤ) × Serwer) × (end_trick
              (seat_index d.server.last_taker)
              k
              number
              (u.scores, u.server)
            ≡ some state')
    ended u q =
        let first = seat_index d.server.last_taker in
        let cards = table_of_turns (answered_turns first 0 table) in
        settled_all-defined
          (end_trick first k number (d.scores, take_turns first 0 cards (begin_trick d.server)))
          (end_trick first k number (u.scores, u.server)) state
          (ap (λ points. settled_all (end_trick first k number (points, u.server))) q.scores
            ∙ end_trick-alike first k number d.scores u.server
                (take_turns first 0 cards (begin_trick d.server)) q.server)
          (ap
              (λ l.
                end_trick first k number (d.scores, take_turns first 0 l (begin_trick d.server)))
              (table-answered_turns first 0 table)
            ∙ e)

-- The tricks behind one that was played can be played.
plays_on :
    (k number : ℕ) (table : List Bytes) (tables : List (List Bytes)) (d u : Desk)
    (state : List (Bytes × ℤ) × Serwer)
    → play_tricks k number (table ∷ tables) (d.scores, d.server) ≡ some state
    → run_trick k number (answered_turns (seat_index d.server.last_taker) 0 table) d ≡ going u
    → (state' : List (Bytes × ℤ) × Serwer) × (play_tricks k (number + 1) tables (u.scores, u.server)
        ≡ some state')
unfolding play_tricks
plays_on k number table tables d u state e runs =
    let first = seat_index d.server.last_taker in
    let turns = answered_turns first 0 table in
    let more = play_tricks k (number + 1) tables in
    let (t, y, a) =
      settled_all-some (play_trick k number table (d.scores, d.server)) u.scores (settled u.server)
        (ap (λ cards. settled_all (play_trick k number cards (d.scores, d.server)))
            (sym (table-answered_turns first 0 table))
          ∙ gone d u _ _ (run_trick-Yields k number turns d) runs) in
    settled_all-defined (more (u.scores, t)) (more (u.scores, u.server)) state
      (play_tricks-alike k (number + 1) tables u.scores u.server t (sym a))
      (sym (ap (λ o. o >>= more) y) ∙ e)

-- How many bytes the main thread writes during the tricks of a deal.
abbrev pub writes_of : List (List Bytes) → ℕ
writes_of [] = 0
writes_of (table ∷ tables) = length table + 12 + writes_of tables

-- Turns in which the cards of the tables are played, and the run that they make.
record Played (k number : ℕ) (tables : List (List Bytes)) (d : Desk) : Type 0 where
  tricks : List (List Turn)
  kept : map table_of_turns tricks ≡ tables
  reaches : Reaches (writes_of tables) (length tables) d (run_tricks k number tricks d)

run_tricks-Played :
    (k number : ℕ) (tables : List (List Bytes)) (d : Desk) (state : List (Bytes × ℤ) × Serwer)
    → play_tricks k number tables (d.scores, d.server) ≡ some state
    → writes_of tables ≤ leading d.writes
    → length tables ≤ coming d.barriers
    → Played k number tables d
unfolding run_tricks play_tricks
run_tricks-Played k number [] d state e l h = record {
  tricks = [];
  kept = refl;
  reaches = record { after = d; runs = refl; writes = omega arith; barriers = omega arith };
}
run_tricks-Played k number (table ∷ tables) d state e l h =
    let first = seat_index d.server.last_taker in
    let turns = answered_turns first 0 table in
    let (state', q, e') =
      bind_some (play_trick k number table (d.scores, d.server)) (play_tricks k (number + 1) tables)
        state e in
    let r = run_trick-Reaches k number table d state' q (omega arith) (omega arith) in
    let u = r.after in
    let w = r.writes in
    let b = r.barriers in
    let (state'', e'') = plays_on k number table tables d u state e r.runs in
    let rest = run_tricks-Played k (number + 1) tables u state'' e'' (omega arith) (omega arith) in
    record {
      tricks = turns ∷ rest.tricks;
      kept =
          ap (λ l. l ∷ map table_of_turns rest.tricks) (table-answered_turns first 0 table)
          ∙ ap (λ l. table ∷ l) rest.kept;
      reaches =
          count-Reaches (length table + 12 + writes_of tables) (1 + length tables) _ _ d d _ refl
            (omega arith) refl refl
            (then-Reaches (length table + 12) 1 (writes_of tables) (length tables) d _ _ r
              rest.reaches);
    }

-- A deal that ends is played by the main thread, in some turns with the cards of its tables, if the
-- writes are complete and all four threads come to each barrier: four writes for the hands, one for
-- each card, twelve for each trick with its barrier and twelve for the scores with theirs. `run_deal`
-- then returns 0.
pub conduct_deal-played :
    (trick_type : ℕ) (seat : Bytes) (tables : List (List Bytes)) (d : Desk) (s : Serwer)
    → run_deal trick_type seat tables d.server ≡ some s
    → writes_of tables + 16 ≤ leading d.writes
    → length tables + 1 ≤ coming d.barriers
    → (tricks : List (List Turn)) × (e : Desk) × (map table_of_turns tricks ≡ tables)
      × (conduct_deal trick_type seat tricks d ≡ going e)
      × (settled e.server ≡ settled s)
unfolding conduct_deal run_deal
conduct_deal-played k seat tables d s run l h =
    let d' = record d { server = begin_deal k seat d.server; scores = no_scores } in
    let r = tell_all-Reaches deal_signal d' (omega arith) in
    let u = r.after in
    let w = r.writes in
    let b = r.barriers in
    let q = gone d' u (Same d') _ (tell_all-Goes deal_signal d') r.runs in
    let start = play_tricks k 1 tables (no_scores, begin_deal k seat d.server) in
    let (state, p, e) = bind_some start (λ t. some (end_deal t)) s run in
    let (state', p') =
      settled_all-defined start (play_tricks k 1 tables (u.scores, u.server)) state
        (ap (λ points. settled_all (play_tricks k 1 tables (points, u.server))) q.scores
          ∙ play_tricks-alike k 1 tables no_scores u.server d'.server q.server)
        p in
    let played = run_tricks-Played k 1 tables u state' p' (omega arith) (omega arith) in
    let tricks = played.tricks in
    let all =
      bind-Reaches (4 + writes_of tables + 4) (0 + length tables + 0) 8 1 d' _ barrier
        (bind-Reaches (4 + writes_of tables) (0 + length tables) 4 0 d' _ _
          (then-Reaches 4 0 (writes_of tables) (length tables) d' _ (run_tricks k 1 tricks) r
            played.reaches)
          (λ v g w' b'.
            count-Reaches 4 0 4 0 v (record v { server = end_deal (v.scores, v.server) }) _ refl
              refl refl refl
              (tell_all-Reaches scores (record v { server = end_deal (v.scores, v.server) })
                (omega arith))))
        (λ v g w' b'. barrier-Reaches v (omega arith) (omega arith)) in
    let (t, x, a) = gone d all.after _ _ (conduct_deal-run_deal k seat tricks d) all.runs in
    (
      tricks,
      all.after,
      played.kept,
      all.runs,
      a ∙ ap settled (ended t (sym x ∙ ap (λ ts. run_deal k seat ts d.server) played.kept ∙ run)),
    )
  where
    ended : (t : Serwer) → some t ≡ some s → t ≡ s
    ended t eq = cc
