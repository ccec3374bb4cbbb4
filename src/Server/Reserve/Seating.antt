-- ===== src/Server/Reserve/Seating.antt =====
-- Who gets a seat, what a new client is told, and the seat that an interrupted welcome leaves taken.
use kierki_sik.Prelude.{
  ◌≡◌, ◌≢◌, refl, ap, [], ◌∷◌, ◌++◌, true, false, some, Bytes, codes, same, same_iff, get_or,
  length, ne→==,
}
use kierki_sik.Seats.{Seat, seat_text, north}
use kierki_sik.StdMap.Laws.{lookup-assign}
use kierki_sik.Messages.{busy_message, deal_message}
use kierki_sik.Server.{World, ended, seat_index, send, closed, sent, reported, answer, later}
use kierki_sik.Server.Reserve.{
  refused, busy, is_free, occupied_seats, send_history, take_seat, join, ask_seat,
}

-- A seat that somebody holds stays with its holder: the newcomer gets BUSY with the seats that
-- are taken, its socket is closed, and the shared state does not change, when the write
-- succeeds.
ask_seat_taken :
    (seat : Bytes) (w : World)
    → is_free seat w.server ≡ false
    → answer w.answers ≡ true
    → ask_seat seat w
      ≡ busy (record w {
        client = record (w.client) { seat = seat };
        events =
            (w.events
              ++ sent w.client.client_fd (busy_message (occupied_seats w.server.seats_status)) ∷ [])
            ++ closed w.client.client_fd ∷ [];
        answers = later w.answers;
      })
unfolding ask_seat send
ask_seat_taken seat w taken told = rw (taken, told)

is_free-take_seat : (seat : Bytes) (w : World) → is_free seat (take_seat seat w).server ≡ false
unfolding is_free take_seat
is_free-take_seat seat w = rw (
  lookup-assign seat seat (some w.client.client_fd) w.server.seats_status,
  (same_iff seat seat).1 refl,
  is_free,
)

-- A write that fails while the thread does not count as occupying.
abbrev dropped : World → World
dropped w = record w {
  events =
      (w.events ++ reported (codes "Failed to send message to the client.") ∷ [])
      ++ closed w.client.client_fd ∷ [];
  answers = later w.answers;
}

send_broken :
    (msg : Bytes) (w : World)
    → answer w.answers ≡ false
    → same w.client.seat (codes "K") ≡ false
    → send false msg w ≡ ended (dropped w)
unfolding send
send_broken msg w broken seat = rw (broken, seat)

history_broken :
    (seat : Bytes) (w : World)
    → length (get_or w.server.deal 0 []) ≢ 0
    → answer w.answers ≡ false
    → same w.client.seat (codes "K") ≡ false
    → send_history seat w ≡ ended (dropped w)
unfolding send_history
history_broken seat w dealt broken name = rw (
  ne→== (length (get_or w.server.deal 0 [])) 0 dealt,
  send_broken
      (deal_message w.server.trick_type_global w.server.deal_starter
        (get_or w.server.deal (seat_index seat) []))
      w broken name,
)

seat_not_k : (x : Seat) → same (seat_text x) (codes "K") ≡ false
unfolding same
seat_not_k north = refl
seat_not_k _ = refl

-- A welcome to a free seat that breaks off at its first message, while a deal is under way,
-- leaves the seat taken: the thread ends and its socket is closed, but nobody tells the main
-- thread, and the seat stays marked as taken.
pub ask_seat_leak :
    (x : Seat) (w : World)
    → is_free (seat_text x) w.server ≡ true
    → length (get_or w.server.deal 0 []) ≢ 0
    → answer w.answers ≡ false
    → (w' : World) × (ask_seat (seat_text x) w ≡ refused w')
      × (is_free (seat_text x) w'.server ≡ false)
      × (w'.events
          ≡ (w.events ++ reported (codes "Failed to send message to the client.") ∷ [])
            ++ closed w.client.client_fd ∷ [])
unfolding ask_seat take_seat
ask_seat_leak x w free dealt broken = (
  dropped (take_seat (seat_text x) w),
  rw free (
      ap join
        (history_broken (seat_text x) (take_seat (seat_text x) w) dealt broken (seat_not_k x))),
  is_free-take_seat (seat_text x) w,
  refl,
)
