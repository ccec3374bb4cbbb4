-- ===== src/Server/Barrier/Rounds.antt =====
-- The rounds of the main thread in a barrier that nobody leaves.
use kierki_sik.Prelude.{◌≡◌, inl, inr, refl, ap, sym, ◌∙◌, [], ◌∷◌, false, arith, subst}
use kierki_sik.Seats.{Seat, north, east, south, west}
use kierki_sik.Server.{barrier_response, barrier_end}
use kierki_sik.Server.Barrier.{
  Room, put, tell_all, waiting, over, read_report, recount, barrier_round, heed_connection,
  Readable, from_client, from_connection,
}
use kierki_sik.Server.Barrier.Meeting.{put_at, put_cases, Told, IsMeeting}

read_empty : (x : Seat) (r : Room) → r.reports x ≡ [] → read_report x r ≡ waiting r
unfolding read_report
read_empty x r e = rw (e, read_report) refl

-- The state after the message of `y` was read.
abbrev pub heard : Seat → Room → Room
heard y r = record r { reports = put y [] r.reports }

read_arrival :
    (x : Seat) (r : Room)
    → r.reports x ≡ barrier_response ∷ []
    → read_report x r ≡ waiting (heard x r)
unfolding read_report
read_arrival x r e = rw (e, read_report) refl

connection_empty : (r : Room) → r.connection ≡ [] → heed_connection r.connection r ≡ waiting r
connection_empty r c = ap (λ l. heed_connection l r) c

recount_full :
    (r : Room)
    → r.server.occupied ≡ 4
    → recount r
      ≡ over (
          tell_all barrier_end
            (record r { server = record (r.server) { b_is_barrier_ongoing = false } }))
unfolding recount
recount_full r o = rw (o, recount) refl

-- The round that the fourth client's message wakes.
round_full :
    (r : Room) (y : Seat)
    → r.server.occupied ≡ 4
    → ((x : Seat) → r.reports x ≡ put y (barrier_response ∷ []) (λ _. []) x)
    → r.connection ≡ []
    → barrier_round r
      ≡ over (
          tell_all barrier_end
            (record (heard y r) { server = record (r.server) { b_is_barrier_ongoing = false } }))
unfolding barrier_round
round_full r north o h c =
    rw
      (
        read_arrival north r (h north),
        read_empty east (heard north r) (h east),
        read_empty south (heard north r) (h south),
        read_empty west (heard north r) (h west),
        connection_empty (heard north r) c,
      )
      (recount_full (heard north r) o)
round_full r east o h c =
    rw
      (
        read_empty north r (h north),
        read_arrival east r (h east),
        read_empty south (heard east r) (h south),
        read_empty west (heard east r) (h west),
        connection_empty (heard east r) c,
      )
      (recount_full (heard east r) o)
round_full r south o h c =
    rw
      (
        read_empty north r (h north),
        read_empty east r (h east),
        read_arrival south r (h south),
        read_empty west (heard south r) (h west),
        connection_empty (heard south r) c,
      )
      (recount_full (heard south r) o)
round_full r west o h c =
    rw
      (
        read_empty north r (h north),
        read_empty east r (h east),
        read_empty south r (h south),
        read_arrival west r (h west),
        connection_empty (heard west r) c,
      )
      (recount_full (heard west r) o)

-- A pipe towards the main thread holds a message only when all have come.
pub readable_full : (r : Room) → IsMeeting r → Readable r → r.server.occupied ≡ 4
readable_full r h (from_connection m rest e) = cc (h.silent, e)
readable_full r h (from_client x m rest e) = full h.told
  where
    full : Told r → r.server.occupied ≡ 4
    full (inl (o, quiet)) = cc (quiet x, e)
    full (inr (o, t)) = o

heard_empty :
    (y : Seat) (r : Room)
    → ((x : Seat) → r.reports x ≡ put y (barrier_response ∷ []) (λ _. []) x)
    → (x : Seat) → (heard y r).reports x ≡ []
heard_empty y r t x = elim (put_cases y x) [
  | inl same_seat ↦ subst (λ z. put y [] r.reports z ≡ []) (sym same_seat) (put_at y [] r.reports)
  | inr other ↦ other _ _ _ ∙ t x ∙ other _ _ _
]

-- The next round of the main thread: it ends the barrier, with no message left for it.
abbrev pub Ends : Room → Type 0
Ends r =
    (y : Seat) × Readable r
    × (barrier_round r
        ≡ over (
            tell_all barrier_end
              (record (heard y r) { server = record (r.server) { b_is_barrier_ongoing = false } })))
    × ((x : Seat) → (heard y r).reports x ≡ [])

pub meeting_over : (r : Room) → IsMeeting r → r.server.occupied ≡ 4 → Ends r
meeting_over r h full = by_told h.told
  where
    by_told : Told r → Ends r
    by_told (inl (o, quiet)) = absurd (omega arith)
    by_told (inr (o, (y, t))) = (
      y,
      from_client y barrier_response [] (t y ∙ put_at y _ _),
      round_full r y o t h.silent,
      heard_empty y r t,
    )
