-- ===== src/Tests/Room.antt =====
-- The room: seats, newcomers and barriers on a concrete table.
use kierki_sik.Prelude.{
  ◌≡◌, refl, List, [], ◌∷◌, Bool, true, false, some, codes, arith, same, before,
}
use kierki_sik.Decimal.{to_string}
use kierki_sik.Seats.{west}
use kierki_sik.StdMap.{at_or, lookup, assign}
use kierki_sik.Regex.Backtracking.{backtracking}
use kierki_sik.Server.{World, sent, closed, reported, seat_index}
use kierki_sik.Server.Reserve.{ask_seat, seated, refused, is_free}
use kierki_sik.Server.Reserve.Seating.{ask_seat_leak}
use kierki_sik.Server.Reserve.Welcome.{ask_seat_welcome}
use kierki_sik.Prelude.{◌⊎◌, ◌≢◌}
use kierki_sik.Seats.{Seat, seat_text}
use kierki_sik.Messages.{iam_message}
use kierki_sik.Server.Reserve.{reserve_spot, message}
use kierki_sik.Server.Reserve.Greeting.{reserve_spot-iam_message}
use kierki_sik.Tests.{table_3, east_client}

-- A connection that has no seat yet, and what the kernel answers to its writes.
abbrev newcomer : List Bool → World
newcomer answers = record {
  server = table_3;
  client = record {
    client_fd = 9;
    seat = [];
    b_was_destined_to_play = false;
    b_is_barrier = false;
    current_trick = 0;
    timeout_copy = 0;
  };
  events = [];
  answers = answers;
}

ask_seat_leak_example :
    (w' : World) × (ask_seat (codes "W") (newcomer []) ≡ refused w')
    × (is_free (codes "W") w'.server ≡ false)
    × (w'.events ≡ reported (codes "Failed to send message to the client.") ∷ closed 9 ∷ [])
unfolding is_free lookup same
ask_seat_leak_example = ask_seat_leak west (newcomer []) refl (λ e. ground arith) refl

ask_seat_welcome_example :
    ask_seat (codes "W") (newcomer (true ∷ true ∷ []))
    ≡ seated false (record (newcomer []) {
      server = record table_3 {
        seats_status =
            (codes "E", some 7)
            ∷ (codes "N", some 6)
            ∷ (codes "S", some 8)
            ∷ (codes "W", some 9)
            ∷ [];
      };
      client = record ((newcomer []).client) { seat = codes "W" };
      events = sent 9 (codes "DEAL1N2C\r\n") ∷ sent 9 (codes "TAKEN12S3S4S5SN\r\n") ∷ [];
    })
unfolding is_free lookup same assign seat_index at_or before to_string
ask_seat_welcome_example =
    ask_seat_welcome (codes "W") [] (newcomer (true ∷ true ∷ [])) refl (λ e. ground arith)
      (omega arith) refl refl

abbrev at_barrier : World
at_barrier = record {
  server = table_3;
  client = east_client false true;
  events = [];
  answers = true ∷ true ∷ [];
}

reserve_spot-iam_message_example :
    ((x : Seat) × (codes "IAMX\r\n" ≡ iam_message (seat_text x))
      × (reserve_spot backtracking (message (codes "IAMX\r\n")) (newcomer [])
          ≡ ask_seat (seat_text x) (newcomer [])))
    ⊎ (((x : Seat) → codes "IAMX\r\n" ≢ iam_message (seat_text x))
        × (reserve_spot backtracking (message (codes "IAMX\r\n")) (newcomer [])
            ≡ refused (record (newcomer []) {
              events = reported (codes "Client send invalid message.") ∷ closed 9 ∷ [];
            })))
reserve_spot-iam_message_example =
    reserve_spot-iam_message backtracking (codes "IAMX\r\n") (newcomer [])
