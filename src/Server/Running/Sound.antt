-- ===== src/Server/Running/Sound.antt =====
-- The main thread's control flow refines the deal: what `run_deal` of the server returns.
use kierki_sik.Prelude.{
  ℕ, ◌+◌, ◌%◌, ◌≡◌, refl, sym, ap, ◌∙◌, List, [], ◌∷◌, false, Option, none, some, Bytes, map, arith,
}
use kierki_sik.Prelude.Int.{ℤ}
use kierki_sik.Points.{◌>>=◌}
use kierki_sik.Server.{Serwer, card_play, taken, deal_signal, scores, seat_index, no_scores}
use kierki_sik.Server.Deal.{
  begin_deal, begin_trick, give_turn, put_card, take_turns, end_trick, play_trick, play_tricks,
  end_deal, run_deal,
}
use kierki_sik.Server.Running.{
  Desk, going, thrown, Turn, run_turn, run_turns, score_trick, run_trick, run_tricks, conduct_deal,
}
use kierki_sik.Server.Running.Outcomes.{
  settled, Goes, bind-Goes, map-Goes, start-Goes, Same, tell-Goes, tell_all-Goes, barrier-Goes,
}
use kierki_sik.Server.Running.Settled.{
  settled_all, take_turns-alike, end_trick-alike, bind-settled_all, play_tricks-settled,
  play_tricks-alike, settled_all-some,
}
use kierki_sik.Server.Running.Waiting.{Put, SomePoll, wait_for_card-Goes}

-- The cards that the turns put on the table.
abbrev pub table_of_turns : List Turn → List Bytes
table_of_turns = map (λ turn. turn.1)

-- The state is `s` but for the barriers, and the scores are those of `d`.
pub record Becomes (s : Serwer) (d e : Desk) : Type 0 where
  pub server : settled e.server ≡ settled s
  pub scores : e.scores ≡ d.scores

run_turn-Becomes :
    (beginning i : ℕ) (turn : Turn) (d : Desk)
    → Goes d
        (Becomes (put_card turn.1 (give_turn beginning i d.server)) d)
        (run_turn beginning i turn d)
unfolding run_turn put_card
run_turn-Becomes beginning i (polls, card) d =
    let d' = record d { server = give_turn beginning i d.server; b_received_card = false } in
    let P = Becomes (put_card card (give_turn beginning i d.server)) d in
    start-Goes d d' P _ (omega arith) (
      bind-Goes d' (Same d') P _ _ (tell-Goes card_play ((beginning + i) % 4) d') (λ e q.
        map-Goes e (λ u. Put card e u × SomePoll ((beginning + i) % 4) polls) P _
          (wait_for_card-Goes ((beginning + i) % 4) card polls e q.received)
          (λ u (p, found). record {
            server = p.server ∙ ap (put_card card) q.server;
            scores = p.scores ∙ q.scores;
          })))

pub run_turns-Becomes :
    (beginning i : ℕ) (turns : List Turn) (d : Desk)
    → Goes d
        (Becomes (take_turns beginning i (table_of_turns turns) d.server) d)
        (run_turns beginning i turns d)
unfolding run_turns take_turns
run_turns-Becomes beginning i [] d = (record { server = refl; scores = refl }, omega arith)
run_turns-Becomes beginning i (turn ∷ turns) d =
    let s = put_card turn.1 (give_turn beginning i d.server) in
    let P = Becomes (take_turns beginning (i + 1) (table_of_turns turns) s) in
    bind-Goes d (Becomes s d) (P d) _ _ (run_turn-Becomes beginning i turn d) (λ e q.
      map-Goes e (Becomes (take_turns beginning (i + 1) (table_of_turns turns) e.server) e) (P d) _
        (run_turns-Becomes beginning (i + 1) turns e)
        (λ u p. record {
          server =
              p.server
              ∙ take_turns-alike beginning (i + 1) (table_of_turns turns) e.server s q.server;
          scores = p.scores ∙ q.scores;
        }))

-- The scores and the state are what `o` has, but for the barriers.
abbrev pub Yields : Option (List (Bytes × ℤ) × Serwer) → Desk → Type 0
Yields o e = settled_all o ≡ some (e.scores, settled e.server)

score_trick-Yields :
    (beginning trick_type number : ℕ) (d : Desk)
    → Goes d
        (Yields (end_trick beginning trick_type number (d.scores, d.server)))
        (score_trick beginning trick_type number d)
unfolding score_trick
score_trick-Yields beginning trick_type number d =
    go (end_trick beginning trick_type number (d.scores, d.server))
  where
    go :
        (o : Option (List (Bytes × ℤ) × Serwer))
        → Goes d (Yields o) (elim o [
          | none ↦ thrown d
          | some (points, s) ↦ going (record d { server = s; scores = points })
        ])
    go none = tt
    go (some (points, s)) = (refl, omega arith)

-- A trick that goes on is a trick of the deal.
pub run_trick-Yields :
    (trick_type number : ℕ) (turns : List Turn) (d : Desk)
    → Goes d
        (Yields (play_trick trick_type number (table_of_turns turns) (d.scores, d.server)))
        (run_trick trick_type number turns d)
unfolding run_trick play_trick
run_trick-Yields trick_type number turns d =
    let first = seat_index d.server.last_taker in
    let d' = record d { server = begin_trick d.server } in
    let s = take_turns first 0 (table_of_turns turns) (begin_trick d.server) in
    let P = Yields (end_trick first trick_type number (d.scores, s)) in
    start-Goes d d' P _ (omega arith) (
      bind-Goes d' P P _ _
        (bind-Goes d' P P _ _
          (bind-Goes d' (Becomes s d') P _ _ (run_turns-Becomes first 0 turns d') (λ e q.
            map-Goes e (Yields (end_trick first trick_type number (e.scores, e.server))) P _
              (score_trick-Yields first trick_type number e)
              (λ u r.
                ap (λ points. settled_all (end_trick first trick_type number (points, s)))
                  (sym q.scores)
                ∙ sym (end_trick-alike first trick_type number e.scores e.server s q.server)
                ∙ r)))
          (λ e r. map-Goes e (Same e) P _ (tell_all-Goes taken e) (λ u q. kept _ e u r q)))
        (λ e r. map-Goes e (Same e) P _ (barrier-Goes e) (λ u q. kept _ e u r q)))
  where
    kept :
        (o : Option (List (Bytes × ℤ) × Serwer)) (e u : Desk) → Yields o e → Same e u → Yields o u
    kept o e u r q =
        r
        ∙ ap (λ points. some (points, settled e.server)) (sym q.scores)
        ∙ ap (λ t. some (u.scores, t)) (sym q.server)

run_tricks-Yields :
    (trick_type number : ℕ) (tricks : List (List Turn)) (d : Desk)
    → Goes d
        (Yields (play_tricks trick_type number (map table_of_turns tricks) (d.scores, d.server)))
        (run_tricks trick_type number tricks d)
unfolding run_tricks play_tricks
run_tricks-Yields trick_type number [] d = (refl, omega arith)
run_tricks-Yields trick_type number (turns ∷ tricks) d =
    bind-Goes d (Yields (play_trick trick_type number (table_of_turns turns) (d.scores, d.server)))
      (Yields
        (play_tricks trick_type number (map table_of_turns (turns ∷ tricks)) (d.scores, d.server)))
      _ _ (run_trick-Yields trick_type number turns d)
      (λ e q.
        map-Goes e
          (Yields
            (play_tricks trick_type (number + 1) (map table_of_turns tricks) (e.scores, e.server)))
          _ _ (run_tricks-Yields trick_type (number + 1) tricks e)
          (λ u r.
            let more = play_tricks trick_type (number + 1) (map table_of_turns tricks) in
            bind-settled_all more
              (play_tricks-settled trick_type (number + 1) (map table_of_turns tricks))
              (play_trick trick_type number (table_of_turns turns) (d.scores, d.server))
            ∙ ap (λ o. o >>= more) q
            ∙ sym (
                play_tricks-settled trick_type (number + 1) (map table_of_turns tricks) e.scores
                  e.server)
            ∙ r))

-- The state is what the deal leaves behind, but for the barriers.
abbrev pub Dealt : ℕ → Bytes → List (List Bytes) → Serwer → Desk → Type 0
Dealt trick_type seat tables s e =
    (t : Serwer) × (run_deal trick_type seat tables s ≡ some t) × (settled e.server ≡ settled t)

end_deal-Dealt :
    (trick_type : ℕ) (seat : Bytes) (tables : List (List Bytes)) (s : Serwer) (e : Desk)
    → Yields (play_tricks trick_type 1 tables (no_scores, begin_deal trick_type seat s)) e
    → Dealt trick_type seat tables s (record e { server = end_deal (e.scores, e.server) })
unfolding run_deal end_deal
end_deal-Dealt trick_type seat tables s e y =
    let (t, q, a) =
      settled_all-some (play_tricks trick_type 1 tables (no_scores, begin_deal trick_type seat s))
        e.scores (settled e.server) y in
    (
      end_deal (e.scores, t),
      ap (λ o. o >>= (λ state. some (end_deal state))) q,
      ap (λ r. end_deal (e.scores, r)) (sym a),
    )

Dealt-Same :
    (trick_type : ℕ) (seat : Bytes) (tables : List (List Bytes)) (s : Serwer) (e u : Desk)
    → Dealt trick_type seat tables s e
    → Same e u
    → Dealt trick_type seat tables s u
Dealt-Same trick_type seat tables s e u (t, q, a) same = (t, q, same.server ∙ a)

-- `run_deal` of the server that returns 0 has played the deal of the cards that were put on the
-- table, whatever the pipes held and however many players left: the shared state is the
-- deal's, but for the count and the flag of the barriers; where it returns -1, it has called
-- `close_server`.
pub conduct_deal-run_deal :
    (trick_type : ℕ) (seat : Bytes) (tricks : List (List Turn)) (d : Desk)
    → Goes d
        (Dealt trick_type seat (map table_of_turns tricks) d.server)
        (conduct_deal trick_type seat tricks d)
unfolding conduct_deal
conduct_deal-run_deal trick_type seat tricks d =
    let d' = record d { server = begin_deal trick_type seat d.server; scores = no_scores } in
    let tables = map table_of_turns tricks in
    let P = Dealt trick_type seat tables d.server in
    let Q =
      Yields (play_tricks trick_type 1 tables (no_scores, begin_deal trick_type seat d.server)) in
    start-Goes d d' P _ (omega arith) (
      bind-Goes d' P P _ _
        (bind-Goes d' Q P _ _
          (bind-Goes d' (Same d') Q _ _ (tell_all-Goes deal_signal d') (λ e q.
            map-Goes e (Yields (play_tricks trick_type 1 tables (e.scores, e.server))) Q _
              (run_tricks-Yields trick_type 1 tricks e)
              (λ u r.
                ap (λ points. settled_all (play_tricks trick_type 1 tables (points, d'.server)))
                  (sym q.scores)
                ∙ sym (play_tricks-alike trick_type 1 tables e.scores e.server d'.server q.server)
                ∙ r)))
          (λ e q.
            let e' = record e { server = end_deal (e.scores, e.server) } in
            start-Goes e e' P _ (omega arith) (
              map-Goes e' (Same e') P _ (tell_all-Goes scores e') (λ u r.
                Dealt-Same trick_type seat tables d.server e' u
                  (end_deal-Dealt trick_type seat tables d.server e q) r))))
        (λ e q.
          map-Goes e (Same e) P _ (barrier-Goes e)
            (λ u r. Dealt-Same trick_type seat tables d.server e u q r)))
