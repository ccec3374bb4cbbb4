-- ===== src/Tests/Wire.antt =====
-- What crosses the program's borders: messages, sockets, the game file and the arguments.
use kierki_sik.Prelude.{
  ℕ, zero, suc, ◌≤◌, ◌≡◌, refl, List, [], ◌∷◌, false, none, some, Bytes, codes, length, arith, ◌⊎◌,
}
use kierki_sik.Prelude.Int.{ℤ, pos, negsuc}
use kierki_sik.Decimal.{to_string, stoi, stoi-to_string}
use kierki_sik.Seats.{east}
use kierki_sik.Sockets.{Read, byte, read_from_socket, write_to_socket}
use kierki_sik.Sockets.Framing.{read_from_socket_bounded}
use kierki_sik.Sockets.Delivery.{Outcome, write_to_socket-Outcome}
use kierki_sik.FileReader.{read_deals}
use kierki_sik.FileReader.Deals.{Deal, read_deals-deals_text}
use kierki_sik.CmdArgs.{scan_client}
use kierki_sik.CmdArgs.Order.{WellPlaced, sorted, scan_client-sorted}
use kierki_sik.Tests.{fresh_reader, ace_of_spades, two_of_hearts, queen_of_spades, two_of_clubs}

abbrev hello : Bytes
hello = codes "IAMN\r\n"

-- A peer that never ends its line.
endless : ℕ → List Read
endless zero = []
endless (suc n) = byte 65 ∷ endless n

read_from_socket_bounded_example :
    (r : ℤ) × (buffer : Bytes) × (rest : List Read) × (read_from_socket (endless 91)
      ≡ some (r, buffer, rest))
    × (length buffer ≤ 91)
unfolding endless
read_from_socket_bounded_example = read_from_socket_bounded (endless 91) (omega arith)

write_to_socket-Outcome_example :
    (r : ℤ) × (out : Bytes) × (write_to_socket
        (pos 2 ∷ pos 4 ∷ negsuc 0 ∷ pos 0 ∷ pos 0 ∷ pos 0 ∷ [])
        hello
      ≡ some (r, out))
    × Outcome hello 6 (some (r, out))
write_to_socket-Outcome_example =
    write_to_socket-Outcome (pos 2 ∷ pos 4 ∷ negsuc 0 ∷ pos 0 ∷ pos 0 ∷ pos 0 ∷ []) hello
      (omega arith)

abbrev small_deal : Deal
small_deal = record {
  trick_type = 2;
  starter = east;
  hands = (ace_of_spades ∷ [], two_of_hearts ∷ [], queen_of_spades ∷ [], two_of_clubs ∷ []);
}

read_deals-deals_text_example :
    read_deals 2 (some (codes "2E\nAS\n2H\nQS\n2C\n")) fresh_reader
    ≡ some ((2, codes "E", codes "AS" ∷ codes "2H" ∷ codes "QS" ∷ codes "2C" ∷ []) ∷ [])
read_deals-deals_text_example =
    read_deals-deals_text (small_deal ∷ []) fresh_reader (omega arith, tt) refl

abbrev sample_args : List Bytes
sample_args =
    codes "-h" ∷ codes "localhost" ∷ codes "-N" ∷ codes "-p" ∷ codes "4242" ∷ codes "-4" ∷ []

scan_client-sorted_example :
    (WellPlaced false sample_args × (scan_client sample_args false ≡ some (sorted sample_args)))
    ⊎ ((¬ WellPlaced false sample_args) × (scan_client sample_args false ≡ none))
scan_client-sorted_example = scan_client-sorted sample_args false

stoi-to_string_example : stoi (to_string 4242) ≡ some 4242
stoi-to_string_example = stoi-to_string 4242
