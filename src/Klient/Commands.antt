-- ===== src/Klient/Commands.antt =====
-- klient.cpp, `Klient::run_client`: what the main thread does with a line that the player types.
use kierki_sik.Prelude.{
  ◌≡◌, refl, List, [], ◌∷◌, ◌++◌, true, false, Bytes, codes, same, if◌then◌else◌, take, drop,
}
use kierki_sik.Messages.{trick_message}
use kierki_sik.Klient.{Klient, Event, shown, sent, send_card, send_trick}
use kierki_sik.Klient.Printer.{print_my_cards, print_my_tricks}

-- A card behind `!` is queued, and the worker is told to send it (`send_card`); the other commands
-- print.
unfoldable pub read_command : Bytes → Klient → Klient × List Event
read_command message k =
    if same (take 1 message) (codes "!")
    then (record k { messages_to_send = k.messages_to_send ++ drop 1 message ∷ [] }, [])
    else if same message (codes "cards")
    then (k, shown (print_my_cards k.my_cards) ∷ [])
    else if same message (codes "tricks")
    then (k, shown (print_my_tricks k.taken_tricks) ∷ [])
    else (k, shown (codes "Wrong command.\n") ∷ [])

-- A card that a human player types while no other waits goes to the server as a play of the
-- current trick, whatever the text is; the player's hand and everything else stay as they were.
pub send_card-read_command :
    (card : Bytes) (k : Klient)
    → k.is_ai ≡ false
    → k.messages_to_send ≡ []
    → send_card true (read_command (codes "!" ++ card) k).0
      ≡ (k, sent (trick_message k.trick_number (card ∷ [])) ∷ [])
unfolding read_command send_card send_trick same
send_card-read_command card k human empty = rw (empty, human) refl
