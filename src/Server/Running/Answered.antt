-- ===== src/Server/Running/Answered.antt =====
-- Turns that nothing disturbs: each player answers at the first poll.
use kierki_sik.Prelude.{
  ℕ, zero, suc, ◌+◌, ◌-◌, ◌%◌, ◌≤◌, ◌≡◌, refl, ap, ◌∙◌, List, [], ◌∷◌, ◌++◌, true, false, some,
  Bytes, length, arith, ==_iff,
}
use kierki_sik.Server.{card_play, later}
use kierki_sik.Server.Deal.{give_turn, put_card}
use kierki_sik.Server.Running.{
  Seen, nothing, byte, Desk, going, Turn, tell, run_turn, run_turns, hear_byte, hear_pipe,
  hear_pipes, wait_for_card, ◌>>=◌,
}
use kierki_sik.Server.Running.Sound.{table_of_turns}
use kierki_sik.Server.Running.Reached.{
  leading, Reaches, bind-Reaches, count-Reaches, answer-leading,
}

-- `n` pipes without an event, and `pipes` behind them.
abbrev pub quiet : ℕ → List Seen → List Seen
quiet zero pipes = pipes
quiet (suc n) pipes = nothing ∷ quiet n pipes

-- A poll that shows the card of player `i`.
abbrev pub card_at : ℕ → List Seen
card_at i = quiet i (byte card_play ∷ quiet (4 - i) [])

hear_pipes-quiet :
    (expected : ℕ) (card : Bytes) (n j : ℕ) (pipes : List Seen) (d : Desk)
    → hear_pipes expected card j (quiet n pipes) d ≡ hear_pipes expected card (j + n) pipes d
unfolding hear_pipes hear_pipe
hear_pipes-quiet expected card zero j pipes d =
    ap (λ i. hear_pipes expected card i pipes d) (omega arith)
hear_pipes-quiet expected card (suc n) j pipes d =
    hear_pipes-quiet expected card n (j + 1) pipes d
    ∙ ap (λ i. hear_pipes expected card i pipes d) (omega arith)

hear_pipes-card :
    (expected : ℕ) (card : Bytes) (pipes : List Seen) (d : Desk)
    → hear_pipes expected card expected (byte card_play ∷ pipes) d
      ≡ hear_pipes expected card
          (expected + 1)
          pipes
          (record d { server = put_card card d.server; b_received_card = true })
unfolding hear_pipes hear_pipe hear_byte
hear_pipes-card expected card pipes d = rw ((==_iff expected expected).1 refl) refl

hear_pipes-card_at :
    (expected : ℕ) (card : Bytes) (d : Desk)
    → hear_pipes expected card 0 (card_at expected) d
      ≡ going (record d { server = put_card card d.server; b_received_card = true })
unfolding hear_pipes hear_pipe hear_byte
hear_pipes-card_at expected card d =
    hear_pipes-quiet expected card expected 0 (byte card_play ∷ quiet (4 - expected) []) d
    ∙ ap (λ j. hear_pipes expected card j (byte card_play ∷ quiet (4 - expected) []) d)
        (omega arith)
    ∙ hear_pipes-card expected card (quiet (4 - expected) []) d
    ∙ hear_pipes-quiet expected card (4 - expected) (expected + 1) [] _

-- The turn of player `i` who answers with `card`.
abbrev pub answered : ℕ → Bytes → Turn
answered i card = (some (card_at i) ∷ [], card)

run_turn-Reaches :
    (beginning i : ℕ) (card : Bytes) (d : Desk)
    → 1 ≤ leading d.writes
    → Reaches 1 0 d (run_turn beginning i (answered ((beginning + i) % 4) card) d)
unfolding run_turn wait_for_card tell
run_turn-Reaches beginning i card d l =
    let (t, e) = answer-leading d.writes l in
    let d' = record d {
      server = give_turn beginning i d.server;
      b_received_card = false;
      told = d.told ++ ((beginning + i) % 4, card_play) ∷ [];
      writes = later d.writes;
    } in
    record {
      after = record d' { server = put_card card d'.server; b_received_card = true };
      runs = rw t (
          ap (λ x. x >>= wait_for_card ((beginning + i) % 4) card [])
            (hear_pipes-card_at ((beginning + i) % 4) card d'));
      writes = e;
      barriers = omega arith;
    }

abbrev pub answered_turns : ℕ → ℕ → List Bytes → List Turn
answered_turns beginning i [] = []
answered_turns beginning i (card ∷ cards) =
    answered ((beginning + i) % 4) card ∷ answered_turns beginning (i + 1) cards

pub table-answered_turns :
    (beginning i : ℕ) (cards : List Bytes)
    → table_of_turns (answered_turns beginning i cards) ≡ cards
table-answered_turns beginning i [] = refl
table-answered_turns beginning i (card ∷ cards) =
    ap (λ l. card ∷ l) (table-answered_turns beginning (i + 1) cards)

pub run_turns-Reaches :
    (beginning i : ℕ) (cards : List Bytes) (d : Desk)
    → length cards ≤ leading d.writes
    → Reaches (length cards) 0 d (run_turns beginning i (answered_turns beginning i cards) d)
unfolding run_turns
run_turns-Reaches beginning i [] d l = record {
  after = d;
  runs = refl;
  writes = omega arith;
  barriers = omega arith;
}
run_turns-Reaches beginning i (card ∷ cards) d l =
    count-Reaches (1 + length cards) 0 (suc (length cards)) 0 d d _ (omega arith) refl refl refl (
      bind-Reaches 1 0 (length cards) 0 d _ _ (run_turn-Reaches beginning i card d (omega arith))
        (λ e q w b. run_turns-Reaches beginning (i + 1) cards e (omega arith)))
