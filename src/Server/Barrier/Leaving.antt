-- ===== src/Server/Barrier/Leaving.antt =====
-- A client that leaves a barrier before it has read its order lets the barrier end too early: the
-- order stays in the pipe, the main thread writes a second one, and the next client of the seat
-- counts itself in twice.
use kierki_sik.Prelude.{◌≡◌, refl, [], ◌∷◌, false}
use kierki_sik.Seats.{north, east, south, west}
use kierki_sik.Server.{Serwer, leave, barrier_response, disconnected}
use kierki_sik.Server.Barrier.{
  Room, put, begin_barrier, arrive, depart, over, barrier_round, read_report, recount, Readable,
  from_client, arrives, waits, departs, Run, here, then_step, empty_room,
}

-- The client of N has left, and the main thread has noticed it.
abbrev noticed : Room → Room
noticed r = record r {
  reports = put north [] r.reports;
  orders = put north (barrier_response ∷ barrier_response ∷ []) r.orders;
}

-- The next client of N reads both orders; then come E and S.
abbrev crowded : Room → Room
crowded r =
    arrive south [] (arrive east [] (arrive north [] (arrive north (barrier_response ∷ []) r)))

-- From any start with empty pipes the barrier can be over while nobody has ever come to seat W: it is
-- enough that the first client of N leaves before it reads its order and that three others come.
pub barrier_round-early :
    (s : Serwer)
    → (r r' : Room) × Run (begin_barrier (empty_room s)) r
      × Readable r
      × (barrier_round r ≡ over r')
      × (r'.arrived west ≡ false)
unfolding begin_barrier depart arrive barrier_round read_report recount leave
barrier_round-early s =
    let start = begin_barrier (empty_room s) in
    let gone = depart north start in
    let again = noticed gone in
    let one = arrive north (barrier_response ∷ []) again in
    let two = arrive north [] one in
    let three = arrive east [] two in
    (
      crowded again,
      _,
      then_step _ three _
          (then_step _ two _
            (then_step _ one _
              (then_step _ again _
                (then_step _ gone _ (then_step _ start _ (here start) (departs north start))
                  (waits gone again (from_client north disconnected [] refl) refl))
                (arrives north (barrier_response ∷ []) again refl))
              (arrives north [] one refl))
            (arrives east [] two refl))
          (arrives south [] three refl),
      from_client south barrier_response [] refl,
      refl,
      refl,
    )
