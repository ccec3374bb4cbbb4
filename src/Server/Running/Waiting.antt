-- ===== src/Server/Running/Waiting.antt =====
-- What the main thread hears while it waits for a card.
use kierki_sik.Prelude.{
  ℕ, ◌+◌, ◌≤◌, ◌≡◌, refl, sym, ap, ◌∙◌, ◌⊎◌, inl, inr, List, [], ◌∷◌, Bool, true, false, Option,
  none, some, Bytes, codes, if◌then◌else◌, ◌==◌, arith, subst, Bool-cases, ==_iff,
}
use kierki_sik.Server.{Signal, disconnected, card_play}
use kierki_sik.Server.Deal.{put_card}
use kierki_sik.Server.Running.{
  Seen, nothing, pipe_closed, pipe_failed, pipe_error, byte, Desk, Course, closing, invalid_message,
  hear_byte, hear_pipe, hear_pipes, wait_for_card,
}
use kierki_sik.Server.Running.Outcomes.{
  settled, Goes, bind-Goes, map-Goes, start-Goes, Same, refl-Same, trans-Same, closed_once, if-Goes,
  barrier-Goes,
}

-- Pipe number `i` of a list that begins with number `j` holds a player's card.
abbrev pub CardAt : ℕ → ℕ → List Seen → Type 0
CardAt i j [] = ⊥
CardAt i j (seen ∷ pipes) = ((j ≡ i) × (seen ≡ byte card_play)) ⊎ CardAt i (j + 1) pipes

-- One of the polls found it.
abbrev pub SomePoll : ℕ → List (Option (List Seen)) → Type 0
SomePoll i [] = ⊥
SomePoll i (none ∷ polls) = SomePoll i polls
SomePoll i (some pipes ∷ polls) = CardAt i 0 pipes ⊎ SomePoll i polls

-- The card was put on the table.
pub record Put (card : Bytes) (d e : Desk) : Type 0 where
  pub server : settled e.server ≡ settled (put_card card d.server)
  pub scores : e.scores ≡ d.scores
  pub received : e.b_received_card ≡ true

-- The pipes did nothing, or one of them, where `At` holds, gave the card.
abbrev pub Heard : Type 0 → Bytes → Desk → Desk → Type 0
Heard At card d e = Same d e ⊎ (Put card d e × At)

invalid_message-Goes : (d : Desk) (P : Desk → Type 0) → Goes d P (invalid_message d)
invalid_message-Goes d P =
    closed_once d (codes "Invalid message in main game server poll from client thread.")

Heard-Same :
    (At : Type 0) (card : Bytes) (d : Desk) (x : Course)
    → Goes d (Same d) x
    → Goes d (Heard At card d) x
Heard-Same At card d x g = map-Goes d (Same d) (Heard At card d) x g (λ e q. inl q)

hear_byte-Goes :
    (expected j : ℕ) (card : Bytes) (m : Signal) (d : Desk)
    → Goes d (Heard ((j ≡ expected) × (m ≡ card_play)) card d) (hear_byte expected card j m d)
unfolding hear_byte
hear_byte-Goes expected j card card_play d = elim (Bool-cases (j == expected)) [
  | inl t ↦ rw t (
    inr (record { server = refl; scores = refl; received = refl }, ((==_iff j expected).0 t, refl)),
    omega arith,
  )
  | inr f ↦ rw f (invalid_message-Goes d (Heard ((j ≡ expected) × (card_play ≡ card_play)) card d))
]
hear_byte-Goes expected j card disconnected d =
    Heard-Same ((j ≡ expected) × (disconnected ≡ card_play)) card d _ (
      if-Goes d (Same d) (j == 4) _ _
        (
          record { server = refl; scores = refl; received = refl },
          omega (arith, closed_once d (codes "Connection thread failed.")),
        )
        (barrier-Goes d))
hear_byte-Goes expected j card m d =
    invalid_message-Goes d (Heard ((j ≡ expected) × (m ≡ card_play)) card d)

after-Same :
    (A B : Type 0) (card : Bytes) (d e u : Desk)
    → (A → B)
    → Same d e
    → Heard A card e u
    → Heard B card d u
unfolding put_card
after-Same A B card d e u f q (inl r) = inl (trans-Same d e u q r)
after-Same A B card d e u f q (inr (r, a)) = inr (
  record {
    server = r.server ∙ ap (put_card card) q.server;
    scores = r.scores ∙ q.scores;
    received = r.received;
  },
  f a,
)

after-Put : (card : Bytes) (d e u : Desk) → Put card d e → Same e u → Put card d u
unfolding put_card
after-Put card d e u p q = record {
  server = q.server ∙ p.server;
  scores = q.scores ∙ p.scores;
  received = q.received ∙ p.received;
}

hear_pipe-Goes :
    (expected j : ℕ) (card : Bytes) (seen : Seen) (d : Desk)
    → Goes d
        (Heard ((j ≡ expected) × (seen ≡ byte card_play)) card d)
        (hear_pipe expected card j seen d)
unfolding hear_pipe
hear_pipe-Goes expected j card nothing d = (inl (refl-Same d), omega arith)
hear_pipe-Goes expected j card (byte m) d =
    map-Goes d (Heard ((j ≡ expected) × (m ≡ card_play)) card d)
      (Heard ((j ≡ expected) × (byte m ≡ byte card_play)) card d) _
      (hear_byte-Goes expected j card m d)
      (λ e q.
        after-Same ((j ≡ expected) × (m ≡ card_play)) ((j ≡ expected) × (byte m ≡ byte card_play))
          card d d e (λ (at, is). (at, ap byte is)) (refl-Same d) q)
hear_pipe-Goes expected j card pipe_closed d =
    let d' = closing (codes "Thread closed its pipes (illegal).") d in
    start-Goes d d' (Heard ((j ≡ expected) × (pipe_closed ≡ byte card_play)) card d)
      (invalid_message d')
      (omega (arith, closed_once d (codes "Thread closed its pipes (illegal).")))
      (invalid_message-Goes d' (Heard ((j ≡ expected) × (pipe_closed ≡ byte card_play)) card d))
hear_pipe-Goes expected j card pipe_failed d =
    closed_once d (codes "Failed to read from server thread.")
hear_pipe-Goes expected j card pipe_error d =
    closed_once d (codes "Poll error in main game server poll.")

-- A round over the pipes from number `j` on takes one card at most.
hear_pipes-Goes :
    (expected j : ℕ) (card : Bytes) (pipes : List Seen) (d : Desk)
    → Goes d
        (Heard ((j ≤ expected) × CardAt expected j pipes) card d)
        (hear_pipes expected card j pipes d)
unfolding hear_pipes
hear_pipes-Goes expected j card [] d = (inl (refl-Same d), omega arith)
hear_pipes-Goes expected j card (seen ∷ pipes) d =
    bind-Goes d (Heard ((j ≡ expected) × (seen ≡ byte card_play)) card d)
      (Heard ((j ≤ expected) × CardAt expected j (seen ∷ pipes)) card d) _ _
      (hear_pipe-Goes expected j card seen d)
      (λ e q.
        map-Goes e (Heard ((j + 1 ≤ expected) × CardAt expected (j + 1) pipes) card e)
          (Heard ((j ≤ expected) × CardAt expected j (seen ∷ pipes)) card d) _
          (hear_pipes-Goes expected (j + 1) card pipes e) (λ u r. both e u q r))
  where
    both :
        (e u : Desk)
        → Heard ((j ≡ expected) × (seen ≡ byte card_play)) card d e
        → Heard ((j + 1 ≤ expected) × CardAt expected (j + 1) pipes) card e u
        → Heard ((j ≤ expected) × CardAt expected j (seen ∷ pipes)) card d u
    both e u (inl q) r =
        after-Same ((j + 1 ≤ expected) × CardAt expected (j + 1) pipes)
          ((j ≤ expected) × CardAt expected j (seen ∷ pipes)) card d e u
          (λ (l, c). (omega arith, inr c)) q r
    both e u (inr (p, (at, is))) (inl r) =
        inr (after-Put card d e u p r, (omega arith, inl (at, is)))
    both e u (inr (p, (at, is))) (inr (r, (l, c))) = absurd (omega arith)

if_true :
    (d : Desk) (P : Desk → Type 0) (b : Bool) (x y : Course)
    → b ≡ true
    → Goes d P x
    → Goes d P (if b then x else y)
if_true d P b x y t g = subst (λ c. Goes d P (if c then x else y)) (sym t) g

if_false :
    (d : Desk) (P : Desk → Type 0) (b : Bool) (x y : Course)
    → b ≡ false
    → Goes d P y
    → Goes d P (if b then x else y)
if_false d P b x y f g = subst (λ c. Goes d P (if c then x else y)) (sym f) g

-- The loop ends when it has the card.
wait_for_card-received :
    (expected : ℕ) (card : Bytes) (polls : List (Option (List Seen))) (d : Desk)
    → d.b_received_card ≡ true
    → Goes d (Same d) (wait_for_card expected card polls d)
unfolding wait_for_card
wait_for_card-received expected card [] d t = if_true d (Same d) _ _ _ t (refl-Same d, omega arith)
wait_for_card-received expected card (none ∷ polls) d t =
    if_true d (Same d) _ _ _ t (refl-Same d, omega arith)
wait_for_card-received expected card (some pipes ∷ polls) d t =
    if_true d (Same d) _ _ _ t (refl-Same d, omega arith)

-- Waiting for the card of player `expected` goes on only with that card on the table, once, and only if
-- a poll found a card in that player's pipe, whichever pipes closed or told of a player who left
-- before; where it returns -1, it has called `close_server`.
pub wait_for_card-Goes :
    (expected : ℕ) (card : Bytes) (polls : List (Option (List Seen))) (d : Desk)
    → d.b_received_card ≡ false
    → Goes d (λ e. Put card d e × SomePoll expected polls) (wait_for_card expected card polls d)
unfolding wait_for_card put_card
wait_for_card-Goes expected card [] d f =
    if_false d (λ e. Put card d e × SomePoll expected []) _ _ _ f tt
wait_for_card-Goes expected card (none ∷ polls) d f =
    if_false d (λ e. Put card d e × SomePoll expected (none ∷ polls)) _ _ _ f
      (closed_once d (codes "Failed to poll while waiting for a card."))
wait_for_card-Goes expected card (some pipes ∷ polls) d f =
    if_false d (λ e. Put card d e × SomePoll expected (some pipes ∷ polls)) _ _ _ f
      (bind-Goes d (Heard ((0 ≤ expected) × CardAt expected 0 pipes) card d)
        (λ e. Put card d e × SomePoll expected (some pipes ∷ polls)) _ _
        (hear_pipes-Goes expected 0 card pipes d)
        (more (λ e g. wait_for_card-Goes expected card polls e g)))
  where
    more :
        ((e : Desk)
          → e.b_received_card ≡ false
          → Goes e
              (λ u. Put card e u × SomePoll expected polls)
              (wait_for_card expected card polls e))
        → (e : Desk) → Heard ((0 ≤ expected) × CardAt expected 0 pipes) card d e
        → Goes e
            (λ u. Put card d u × SomePoll expected (some pipes ∷ polls))
            (wait_for_card expected card polls e)
    more rest e (inl q) =
        map-Goes e (λ u. Put card e u × SomePoll expected polls)
          (λ u. Put card d u × SomePoll expected (some pipes ∷ polls)) _ (rest e (q.received ∙ f))
          (λ u (p, found). (
            record {
              server = p.server ∙ ap (put_card card) q.server;
              scores = p.scores ∙ q.scores;
              received = p.received;
            },
            inr found,
          ))
    more rest e (inr (p, (l, c))) =
        map-Goes e (Same e) (λ u. Put card d u × SomePoll expected (some pipes ∷ polls)) _
          (wait_for_card-received expected card polls e p.received)
          (λ u q. (after-Put card d e u p q, inl c))
