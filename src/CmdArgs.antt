-- ===== src/CmdArgs.antt =====
-- cmd_args_parsers.cpp: the options of the two programs. Boost.Program_options is a parameter: what it
-- makes of a list of words, or `none` if it throws. An option's value is `none` when it is missing.
pub mod Order
use kierki_sik.Prelude.{
  ℕ, zero, suc, List, [], ◌∷◌, Bool, true, false, ◌||◌, Option, none, some, Bytes, codes, same,
  if◌then◌else◌, ◌==◌, drop,
}
use kierki_sik.Prelude.Int.{ℤ, pos, negsuc}
use kierki_sik.Points.{◌>>=◌}

abbrev pub is_ip : Bytes → Bool
is_ip arg = same arg (codes "-4") || same arg (codes "-6")

abbrev pub is_seat : Bytes → Bool
is_seat arg =
    same arg (codes "-N") || same arg (codes "-E") || same arg (codes "-S") || same arg (codes "-W")

-- `arg[0] == '-'`; the empty text reads the terminator.
abbrev pub is_option : Bytes → Bool
is_option [] = false
is_option (c ∷ arg) = c == b'-'

-- The words of the loop over the arguments: the IP versions, the seats, and those for Boost.
pub record Words : Type 0 where
  pub ip_order : List Bytes
  pub seat_order : List Bytes
  pub manual_args : List Bytes

-- The loop of `parse_client_args`, with `b_is_arg`; `none` is the exception on a stray word.
unfoldable pub scan_client : List Bytes → Bool → Option Words
scan_client [] b_is_arg = some (record { ip_order = []; seat_order = []; manual_args = [] })
scan_client (arg ∷ args) b_is_arg =
    let plain = scan_client args false in
    let option = scan_client args true in
    if is_ip arg
    then (do w ← plain; some (record w { ip_order = arg ∷ w.ip_order }))
    else if is_seat arg
    then (do w ← plain; some (record w { seat_order = drop 1 arg ∷ w.seat_order }))
    else if is_option arg
    then (do w ← option; some (record w { manual_args = arg ∷ w.manual_args }))
    else if b_is_arg
    then (do w ← plain; some (record w { manual_args = arg ∷ w.manual_args }))
    else none

-- The loop of `parse_server_args`, which only looks for a stray word.
unfoldable pub scan_server : List Bytes → Bool → Bool
scan_server [] b_is_arg = true
scan_server (arg ∷ args) b_is_arg =
    let plain = scan_server args false in
    let option = scan_server args true in
    if is_option arg then option else if b_is_arg then plain else false

-- Boost's map of the client's options: `-h`, `-p` and `-a`; an option has a value at least.
pub record ClientOptions : Type 0 where
  pub host : Option Bytes
  pub port : Option ℤ
  pub ai : Bool

pub record ClientArgs : Type 0 where
  pub host : Bytes
  pub port_number : ℤ
  pub ip_v : ℤ
  pub seat : Bytes
  pub is_ai : Bool

-- A port number that is not negative.
abbrev pub natural : ℤ → Option ℤ
natural (pos n) = some (pos n)
natural (negsuc n) = none

-- `ip_order[0] == "-4" ? 4 : 6`, and the caller's value without one.
abbrev pub ip_version : ℤ → List Bytes → ℤ
ip_version ip_v [] = ip_v
ip_version ip_v (ip ∷ ips) = if same ip (codes "-4") then pos 4 else pos 6

abbrev pub first_seat : List Bytes → Option Bytes
first_seat [] = none
first_seat (seat ∷ seats) = some seat

-- `parse_client_args`; `none` is the result 1. The last arguments are the caller's values.
unfoldable pub parse_client_args :
    (List Bytes → Option ClientOptions) → List Bytes → ℤ → Bool → Option ClientArgs
unfolding scan_client
parse_client_args boost args ip_v is_ai = do
  w ← scan_client args false
  seat ← first_seat w.seat_order
  vm ← boost w.manual_args
  host ← vm.host
  port ← vm.port
  port_number ← natural port
  some (record {
    host = host;
    port_number = port_number;
    ip_v = ip_version ip_v w.ip_order;
    seat = seat;
    is_ai = vm.ai || is_ai;
  })

pub record ServerOptions : Type 0 where
  pub port : Option ℤ
  pub game_file_name : Option Bytes
  pub timeout : Option ℤ

pub record ServerArgs : Type 0 where
  pub port : ℤ
  pub game_file_name : Bytes
  pub timeout : ℤ

abbrev pub natural_or : ℤ → Option ℤ → Option ℤ
natural_or n none = some n
natural_or n (some m) = natural m

-- The `fopen` at the end.
abbrev pub open_file : (Bytes → Bool) → ServerArgs → Option ServerArgs
open_file exists a = if exists a.game_file_name then some a else none

-- `parse_server_args`; Boost reads all the words again, and `exists` tells if the file opens.
unfoldable pub parse_server_args :
    (List Bytes → Option ServerOptions) → (Bytes → Bool) → List Bytes → ℤ → ℤ → Option ServerArgs
unfolding scan_server
parse_server_args boost exists args port timeout =
    if scan_server args false
    then (do
      vm ← boost args
      p ← natural_or port vm.port
      name ← vm.game_file_name
      t ← natural_or timeout vm.timeout
      open_file exists (record { port = p; game_file_name = name; timeout = t }))
    else none
