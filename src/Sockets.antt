-- ===== src/Sockets.antt =====
-- common.cpp, `read_from_socket` and `write_to_socket`: the loops around `read` and `write`. What
-- the kernel answers is a list; `none` says that the list ended while the loop still waits.
pub mod Framing
pub mod Delivery
pub mod Stream
pub mod Setup
pub mod Resolver
use kierki_sik.Prelude.{
  ℕ, zero, suc, ◌+◌, ◌-◌, List, [], ◌∷◌, ◌++◌, Bool, true, false, ◌&&◌, Option, none, some, Bytes,
  ltb, ◌==◌, if◌then◌else◌, length, take, drop,
}
use kierki_sik.Prelude.Int.{ℤ, pos, negsuc}

abbrev pub max_buffer_size : ℕ
max_buffer_size = 90

-- One answer of `read(fd, &c, 1)`.
pub data Read : Type 0 where
  byte : ℕ → Read
  end_of_file failed : Read

-- `buffer.length() >= 2 && buffer.ends_with(DELIMETER)`.
unfoldable pub ends_with_delimeter : Bytes → Bool
ends_with_delimeter [] = false
ends_with_delimeter (c ∷ []) = false
ends_with_delimeter (c ∷ d ∷ []) = c == 13 && d == 10
ends_with_delimeter (c ∷ d ∷ e ∷ s) = ends_with_delimeter (d ∷ e ∷ s)

-- The result, the buffer and the answers that are left; `total_read` counts the bytes.
unfoldable pub read_loop : List Read → ℕ → Bytes → Option (ℤ × Bytes × List Read)
unfolding ends_with_delimeter
read_loop [] total_read buffer = none
read_loop (end_of_file ∷ rs) total_read buffer = some (pos 0, buffer, rs)
read_loop (failed ∷ rs) total_read buffer = some (negsuc 0, buffer, rs)
read_loop (byte c ∷ rs) total_read buffer =
    let rest = read_loop rs (total_read + 1) (buffer ++ c ∷ []) in
    if ends_with_delimeter (buffer ++ c ∷ [])
    then some (pos (length (buffer ++ c ∷ [])), buffer ++ c ∷ [], rs)
    else if ltb max_buffer_size (total_read + 1)
    then some (negsuc 0, buffer ++ c ∷ [], rs)
    else rest

-- Every caller passes an empty buffer.
unfoldable pub read_from_socket : List Read → Option (ℤ × Bytes × List Read)
read_from_socket rs = read_loop rs 0 []

-- The answers of `write`, the bytes that are left and those that went out.
unfoldable pub write_loop : List ℤ → Bytes → Bytes → ℕ → Option (ℤ × Bytes)
write_loop answers [] delivered size = some (pos size, delivered)
write_loop [] (c ∷ rest) delivered size = none
write_loop (negsuc n ∷ answers) (c ∷ rest) delivered size = some (negsuc n, delivered)
write_loop (pos zero ∷ answers) (c ∷ rest) delivered size = some (pos 0, delivered)
write_loop (pos (suc n) ∷ answers) (c ∷ rest) delivered size =
    write_loop answers (drop n rest) (delivered ++ take (suc n) (c ∷ rest)) size

unfoldable pub write_to_socket : List ℤ → Bytes → Option (ℤ × Bytes)
write_to_socket answers buffer = write_loop answers buffer [] (length buffer)
