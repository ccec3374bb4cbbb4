-- ===== src/FileReader.antt =====
-- file_reader.h and file_reader.cpp: the deals of the game file. The stream is the text that is left
-- and its `good` state; the file is the text that opening finds, `none` if it cannot be opened.
pub mod Deals
use kierki_sik.Prelude.{
  ℕ, zero, suc, List, [], ◌∷◌, ◌++◌, Bool, true, false, Option, none, some, Bytes, if◌then◌else◌,
  ◌==◌, take, drop, length, substr,
}
use kierki_sik.Decimal.{stoi}
use kierki_sik.Points.{◌>>=◌}

pub record Stream : Type 0 where
  pub left : Bytes
  pub good : Bool

pub record FileReader : Type 0 where
  pub b_was_stream_opened : Bool
  pub file_stream : Stream
  pub trick_type : ℕ
  pub seat : Bytes
  pub cards : List Bytes

-- The characters before the line's end, those after it, and whether a line's end was found.
unfoldable pub cut_line : Bytes → Bytes × Bytes × Bool
cut_line [] = ([], [], false)
cut_line (c ∷ s) =
    if c == 10
    then ([], s, true)
    else (let (line, rest, found) = cut_line s in (c ∷ line, rest, found))

-- `getline`: the last line without an end leaves the stream at its end, and on a stream that is not
-- good the string keeps its content.
unfoldable pub getline : Bytes → Stream → Bytes × Stream
getline line s =
    if s.good
    then (let (l, rest, found) = cut_line s.left in (l, record { left = rest; good = found }))
    else (line, s)

-- `file_stream.close()`: nothing is left to read.
abbrev pub close : Stream → Stream
close s = record s { left = [] }

-- The loop over the hands, `n` lines.
unfoldable pub read_hands : ℕ → Bytes → Stream → List Bytes × Stream
read_hands zero line s = ([], s)
read_hands (suc n) line s =
    let (l, s1) = getline line s in let (ls, s2) = read_hands n l s1 in (l ∷ ls, s2)

-- The result of `read_next_deal`; the last is the exception of `stoi`.
pub data Outcome : Type 0 where
  not_opened threw : Outcome
  end_of_file : FileReader → Outcome
  read : FileReader → Outcome

-- What follows the first `getline`: an empty line ends the file, any other starts a deal.
unfoldable pub take_line : FileReader → Bytes × Stream → Outcome
unfolding read_hands
take_line r ([], s) = end_of_file (record r { file_stream = close s })
take_line r (c ∷ line, s) = elim (stoi (c ∷ [])) [
  | none ↦ threw
  | some n ↦
      let (hands, s') = read_hands 4 (c ∷ line) s in
      read (record r { file_stream = s'; trick_type = n; seat = take 1 line; cards = hands })
]

abbrev pub at_start : Bytes → Stream
at_start text = record { left = text; good = true }

unfoldable pub read_next_deal : Option Bytes → FileReader → Outcome
read_next_deal file r =
    if r.b_was_stream_opened then take_line r (getline [] r.file_stream) else elim file [
      | none ↦ not_opened
      | some text ↦
          take_line (record r { b_was_stream_opened = true; file_stream = at_start text })
            (getline [] (at_start text))
    ]

-- What `run_game` takes from the reader: the type, the starter and the four lines of hands.
abbrev pub RawDeal : Type 0
RawDeal = ℕ × Bytes × List Bytes

abbrev pub raw_deal : FileReader → RawDeal
raw_deal r = (r.trick_type, r.seat, r.cards)

-- The loop of `run_game` over the deals, at most `n` reads; `none` if they do not end it, or if an
-- exception does.
unfoldable pub read_deals : ℕ → Option Bytes → FileReader → Option (List RawDeal)
read_deals zero file r = none
read_deals (suc n) file r = elim (read_next_deal file r) [
  | not_opened ↦ some []
  | threw ↦ none
  | end_of_file r' ↦ some []
  | read r' ↦ (do rest ← read_deals n file r'; some (raw_deal r' ∷ rest))
]
