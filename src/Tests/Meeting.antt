-- ===== src/Tests/Meeting.antt =====
-- Barriers on concrete rooms.
use kierki_sik.Prelude.{◌≤◌, ◌≡◌, ◌⊎◌, refl, List, [], ◌∷◌, true, false}
use kierki_sik.Seats.{Seat, north, east, south, west}
use kierki_sik.Server.{Signal, barrier_response, barrier_end}
use kierki_sik.Server.Barrier.{
  Room, tell_all, begin_barrier, arrive, over, barrier_round, read_report, recount, Readable,
  from_client, arrives, Run, here, then_step, empty_room, steps,
}
use kierki_sik.Server.Barrier.Meeting.{IsIdle}
use kierki_sik.Server.Barrier.Rounds.{heard}
use kierki_sik.Server.Barrier.Runs.{barrier_round-over, run_progress}
use kierki_sik.Server.Barrier.Leaving.{barrier_round-early}
use kierki_sik.Tests.{table_3}

abbrev quiet_room : Room
quiet_room = empty_room table_3

quiet_room-IsIdle : IsIdle quiet_room
quiet_room-IsIdle = record {
  no_orders = λ x. refl;
  no_reports = λ x. refl;
  no_connection = refl;
  nobody = λ x. refl;
}

abbrev after_one : Room
after_one = arrive west [] (begin_barrier quiet_room)

abbrev after_two : Room
after_two = arrive north [] after_one

abbrev after_three : Room
after_three = arrive south [] after_two

abbrev after_four : Room
after_four = arrive east [] after_three

run_of_two : Run (begin_barrier quiet_room) after_two
unfolding begin_barrier arrive
run_of_two =
    then_step _ after_one _
      (then_step _ (begin_barrier quiet_room) _ (here _)
        (arrives west [] (begin_barrier quiet_room) refl))
      (arrives north [] after_one refl)

run_of_four : Run (begin_barrier quiet_room) after_four
unfolding begin_barrier arrive run_of_two
run_of_four =
    then_step _ after_three _ (then_step _ after_two _ run_of_two (arrives south [] after_two refl))
      (arrives east [] after_three refl)

abbrev dismissed : Room
dismissed = tell_all barrier_end (record (heard east after_four) {
  server = record (after_four.server) { b_is_barrier_ongoing = false };
})

barrier_round-over_example :
    (dismissed.arrived west ≡ true)
    × (dismissed.server.b_is_barrier_ongoing ≡ false)
    × (dismissed.orders west ≡ barrier_end ∷ [])
    × (dismissed.reports west ≡ [])
unfolding begin_barrier arrive run_of_four run_of_two barrier_round read_report recount
barrier_round-over_example =
    barrier_round-over quiet_room after_four dismissed run_of_four tt quiet_room-IsIdle
      (from_client east barrier_response [] refl) refl west

run_progress_example :
    (steps run_of_two ≤ 4)
    × (((x : Seat) × (rest : List Signal) × (after_two.orders x ≡ barrier_response ∷ rest))
        ⊎ ((steps run_of_two ≡ 4)
            × ((s' : Room) × Readable after_two × (barrier_round after_two ≡ over s'))))
unfolding run_of_two
run_progress_example = run_progress quiet_room after_two run_of_two tt quiet_room-IsIdle

barrier_round-early_example :
    (r r' : Room) × Run (begin_barrier (empty_room table_3)) r
    × Readable r
    × (barrier_round r ≡ over r')
    × (r'.arrived west ≡ false)
barrier_round-early_example = barrier_round-early table_3
