-- ===== src/Server/Barrier/Runs.antt =====
-- The runs of a barrier that nobody leaves, whatever the order of the threads' steps.
use kierki_sik.Prelude.{
  ℕ, ◌+◌, ◌≤◌, ◌<◌, ◌≡◌, ◌≢◌, ◌⊎◌, inl, inr, refl, ap, sym, ◌∙◌, List, [], ◌∷◌, ◌++◌, true, false,
  arith, subst, dec_lt,
}
use kierki_sik.Seats.{Seat}
use kierki_sik.Server.{Signal, barrier_response, barrier_end}
use kierki_sik.Server.Barrier.{
  Room, tell_all, begin_barrier, arrive, Round, waiting, over, closing, barrier_round, Readable,
  arrives, waits, departs, Run, here, then_step, Stays, steps,
}
use kierki_sik.Server.Barrier.Meeting.{
  IsIdle, IsMeeting, Place, Told, missing, count_full, begin_barrier-IsMeeting,
}
use kierki_sik.Server.Barrier.Rounds.{heard, readable_full, meeting_over}
use kierki_sik.Server.Barrier.Arrival.{arrive-IsMeeting}

not_waiting : (s t : Room) → IsMeeting s → Readable s → barrier_round s ≢ waiting t
not_waiting s t h q e =
    let (y, q', o, none_left) = meeting_over s h (readable_full s h q) in cc (e, o)

-- What holds along such a run: each step is the arrival of a client.
abbrev Holds : Room → ℕ → Type 0
Holds s n = IsMeeting s × (n ≡ s.server.occupied)

arrive_counts :
    (x : Seat) (rest : List Signal) (r : Room) (n : ℕ)
    → n ≡ r.server.occupied
    → n + 1 ≡ (arrive x rest r).server.occupied
unfolding arrive
arrive_counts x rest r n e = omega (arith, e)

run-Holds :
    (b s : Room) (run : Run b s)
    → Stays run
    → IsMeeting b
    → 0 ≡ b.server.occupied
    → Holds s (steps run)
run-Holds b s (here _) stays meeting zero = (meeting, zero)
run-Holds b s (then_step _ u _ run (arrives x rest _ e)) stays meeting zero =
    let (h, n) = run-Holds b u run stays meeting zero in
    (arrive-IsMeeting x rest u h e, arrive_counts x rest u _ n)
run-Holds b s (then_step _ u _ run (waits _ _ q e)) stays meeting zero =
    let (h, n) = run-Holds b u run stays meeting zero in absurd (not_waiting u s h q e)
run-Holds b s (then_step _ u _ run (departs x _)) stays meeting zero = absurd stays

begun : (r s : Room) (run : Run (begin_barrier r) s) → Stays run → IsIdle r → Holds s (steps run)
unfolding begin_barrier
begun r s run stays idle =
    run-Holds (begin_barrier r) s run stays (begin_barrier-IsMeeting r idle) refl

-- The state in which the main thread leaves the barrier.
abbrev left : Seat → Room → Room
left y s =
    tell_all barrier_end
      (record (heard y s) { server = record (s.server) { b_is_barrier_ongoing = false } })

over-injective : (s t : Room) → over s ≡ over t → s ≡ t
over-injective s t e = ap inside e
  where
    inside : Round → Room
    inside (over r) = r
    inside (waiting r) = s
    inside closing = s

come :
    (s : Room) (x : Seat)
    → IsMeeting s
    → s.server.occupied ≡ 4
    → (s.arrived x ≡ true) × (s.orders x ≡ [])
come s x h full = by_place (h.places x)
  where
    all : s.arrived x ≡ true
    all = count_full x s.arrived (omega (arith, h.counted))

    by_place : Place s x → (s.arrived x ≡ true) × (s.orders x ≡ [])
    by_place (inr p) = p
    by_place (inl p) = cc (p.0, all)

-- A barrier that starts with empty pipes and that no client leaves is over only when all four have
-- come, in whatever order the threads step: then the flag is off, each client's pipe holds
-- BARRIER_END and nothing else, and no message for the main thread is left.
pub barrier_round-over :
    (r s s' : Room) (run : Run (begin_barrier r) s)
    → Stays run
    → IsIdle r
    → Readable s
    → barrier_round s ≡ over s'
    → (x : Seat)
    → (s'.arrived x ≡ true)
      × (s'.server.b_is_barrier_ongoing ≡ false)
      × (s'.orders x ≡ barrier_end ∷ [])
      × (s'.reports x ≡ [])
barrier_round-over r s s' run stays idle q e x =
    let (h, n) = begun r s run stays idle in
    let full = readable_full s h q in
    let (y, q', o, none_left) = meeting_over s h full in
    let (here_is, no_order) = come s x h full in
    subst
      (λ t.
        (t.arrived x ≡ true)
        × (t.server.b_is_barrier_ongoing ≡ false)
        × (t.orders x ≡ barrier_end ∷ [])
        × (t.reports x ≡ []))
      (over-injective (left y s) s' (sym o ∙ e))
      (here_is, refl, ap (λ l. l ++ barrier_end ∷ []) no_order, none_left x)

-- A barrier that starts with empty pipes and that no client leaves cannot hang: the threads take
-- at most four steps, and at each point either a client that has not come can, or four steps
-- were taken and the next round of the main thread ends the barrier.
pub run_progress :
    (r s : Room) (run : Run (begin_barrier r) s)
    → Stays run
    → IsIdle r
    → (steps run ≤ 4)
      × (((x : Seat) × (rest : List Signal) × (s.orders x ≡ barrier_response ∷ rest))
          ⊎ ((steps run ≡ 4) × ((s' : Room) × Readable s × (barrier_round s ≡ over s'))))
run_progress r s run stays idle =
    let (h, n) = begun r s run stays idle in
    elim (dec_lt s.server.occupied 4) [
      | yes short ↦ (omega (arith, n), inl (still (missing s.arrived (omega (arith, h.counted))) h))
      | no enough ↦
          let full = at_most h enough in
          let (y, q, o, none_left) = meeting_over s h full in
          (omega (arith, n, full), inr (n ∙ full, (left y s, q, o)))
    ]
  where
    still :
        (x : Seat) × (s.arrived x ≡ false)
        → IsMeeting s
        → (x : Seat) × (rest : List Signal) × (s.orders x ≡ barrier_response ∷ rest)
    still (x, a) h = elim (h.places x) [ inl p ↦ (x, [], p.1) | inr p ↦ absurd (cc (p.0, a)) ]

    at_most : IsMeeting s → ¬ (s.server.occupied < 4) → s.server.occupied ≡ 4
    at_most h enough = by_told h.told
      where
        by_told : Told s → s.server.occupied ≡ 4
        by_told (inl p) = absurd (enough p.0)
        by_told (inr p) = p.0
