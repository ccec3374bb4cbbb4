-- ===== src/Server/Reserve/Greeting.antt =====
-- The first message of a connection.
use kierki_sik.Prelude.{
  ◌≡◌, ◌≢◌, ◌⊎◌, inl, inr, refl, ap, ◌∙◌, [], ◌∷◌, ◌++◌, Bytes, codes, substr, Bool-cases,
}
use kierki_sik.Seats.{Seat, seat_text, north}
use kierki_sik.Regex.{Boost, iam_check}
use kierki_sik.Messages.{iam_message}
use kierki_sik.Messages.Language.{iam_check_iff}
use kierki_sik.Server.{World, closed, reported}
use kierki_sik.Server.Reserve.{message, refused, ask_seat, reserve_spot}

seat_of_iam : (x : Seat) → substr (iam_message (seat_text x)) 3 1 ≡ seat_text x
seat_of_iam north = refl
seat_of_iam _ = refl

reserve_spot_iam :
    (boost : Boost) (x : Seat) (w : World)
    → reserve_spot boost (message (iam_message (seat_text x))) w ≡ ask_seat (seat_text x) w
unfolding reserve_spot
reserve_spot_iam boost x w =
    rw ((iam_check_iff boost (iam_message (seat_text x))).1 (x, refl), seat_of_iam x) refl

-- A connection's first message either is the greeting of a seat, which is then asked for, or it is
-- reported, the socket is closed, and nothing else happens.
pub reserve_spot-iam_message :
    (boost : Boost) (m : Bytes) (w : World)
    → ((x : Seat) × (m ≡ iam_message (seat_text x))
        × (reserve_spot boost (message m) w ≡ ask_seat (seat_text x) w))
      ⊎ (((x : Seat) → m ≢ iam_message (seat_text x))
          × (reserve_spot boost (message m) w
              ≡ refused (record w {
                events =
                    (w.events ++ reported (codes "Client send invalid message.") ∷ [])
                    ++ closed w.client.client_fd ∷ [];
              })))
unfolding reserve_spot
reserve_spot-iam_message boost m w = elim (Bool-cases (iam_check boost m)) [
  | inl e ↦
      let (x, q) = (iam_check_iff boost m).0 e in
      inl (x, q, ap (λ l. reserve_spot boost (message l) w) q ∙ reserve_spot_iam boost x w)
  | inr e ↦ inr ((λ x q. cc ((iam_check_iff boost m).1 (x, q), e)), rw e refl)
]
