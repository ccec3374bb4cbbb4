-- ===== src/Server/Play/Violations.antt =====
-- `parse_message` on a card out of turn, and on a message that is no play at all.
use kierki_sik.Prelude.{
  ℕ, ◌-◌, ◌≡◌, ◌≢◌, inl, inr, refl, [], ◌∷◌, ◌++◌, true, false, none, Bytes, codes, Bool-cases,
}
use kierki_sik.Cards.{Card}
use kierki_sik.Regex.{Boost, trick_client_check}
use kierki_sik.Messages.{wrong_message}
use kierki_sik.Messages.TrickNumbers.{IsTrickNr}
use kierki_sik.Messages.Language.{trick_client_check_iff}
use kierki_sik.Server.{
  World, going, ended, seat_index, send, close_thread, sent, notified, answer, later,
}
use kierki_sik.Server.Play.{parse_message}
use kierki_sik.StdMap.{assign}
use kierki_sik.Server.Play.Verdicts.{play_text, check_play}
use kierki_sik.Messages.Language.{TrickNr}
use kierki_sik.Server.{reported, closed, disconnected, leave}

-- A client that is not to play is answered with WRONG, whatever card of whichever trick from 1
-- to 13 it sends, if the write succeeds; nothing else changes.
parse_message_out_of_turn :
    (boost : Boost) (n current : ℕ) (c : Card) (w : World)
    → IsTrickNr n
    → w.client.b_was_destined_to_play ≡ false
    → answer w.answers ≡ true
    → parse_message boost (play_text n c) current w
      ≡ going (record w {
        events = w.events ++ sent w.client.client_fd (wrong_message current) ∷ [];
        answers = later w.answers;
      })
unfolding parse_message send
parse_message_out_of_turn boost n current c w r turn told =
    simp (check_play boost n c r, turn, told)

not_play :
    (boost : Boost) (m : Bytes)
    → ((n : TrickNr) (c : Card) → m ≢ play_text n.0 c)
    → trick_client_check boost m ≡ false
not_play boost m other = elim (Bool-cases (trick_client_check boost m)) [
  | inl e ↦ let (p, q) = (trick_client_check_iff boost m).0 e in absurd (other p.0 p.1 q)
  | inr e ↦ e
]

-- A client that sends anything but a card of a trick loses its seat, when the main thread's pipe
-- takes a byte: the seat is free again, a barrier begins, the main thread is told, the socket is
-- closed and the thread ends.
parse_message_invalid :
    (boost : Boost) (m : Bytes) (current : ℕ) (w : World)
    → ((n : TrickNr) (c : Card) → m ≢ play_text n.0 c)
    → answer w.answers ≡ true
    → parse_message boost m current w
      ≡ ended (record w {
        server = record (w.server) {
          occupied = w.server.occupied - 1;
          b_is_barrier_ongoing = true;
          seats_status = assign w.client.seat none w.server.seats_status;
        };
        events =
            ((w.events ++ reported (codes "Client send invalid message.") ∷ [])
              ++ notified (seat_index w.client.seat) disconnected ∷ [])
            ++ closed w.client.client_fd ∷ [];
        answers = later w.answers;
      })
unfolding parse_message close_thread leave
parse_message_invalid boost m current w other told = rw (not_play boost m other, told) refl
