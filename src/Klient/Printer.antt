-- ===== src/Klient/Printer.antt =====
-- klient_printer.cpp: the texts that the client shows to a human player.
use kierki_sik.Prelude.{
  ℕ, ◌-◌, List, [], ◌∷◌, ◌++◌, Bytes, codes, substr, length, get_or, ltb, if◌then◌else◌,
}
use kierki_sik.Decimal.{to_string}
use kierki_sik.Regex.{Boost, extract_cards, extract_seat_score}

abbrev commas : List Bytes → Bytes
commas [] = []
commas (c ∷ cards) = codes ", " ++ (c ++ commas cards)

-- `print_data`: the first entry behind a blank, the others behind a comma.
unfoldable pub print_data : List Bytes → Bytes
print_data [] = []
print_data (c ∷ cards) = codes " " ++ (c ++ commas cards)

abbrev singletons : Bytes → List Bytes
singletons [] = []
singletons (c ∷ s) = (c ∷ []) ∷ singletons s

unfoldable pub print_busy : Bytes → Bytes
unfolding print_data
print_busy s =
    codes "Place busy, list of busy places received:"
    ++ (print_data (singletons (substr s 4 (length s - 6))) ++ codes ".\n")

module _ (boost : Boost) where
  unfoldable pub print_deal : Bytes → Bytes
  print_deal s =
      codes "New deal "
      ++ (get_or s 4 0 ∷ [])
      ++ codes ": staring place: "
      ++ (get_or s 5 0 ∷ [])
      ++ codes ", your cards:"
      ++ print_data (extract_cards boost (substr s 6 (length s - 8)))
      ++ codes ".\n"

  unfoldable pub print_wrong : ℕ → Bytes
  print_wrong trick_nr =
      codes "Wrong message received in trick " ++ (to_string trick_nr ++ codes ".\n")

  unfoldable pub print_taken : Bytes → ℕ → Bytes
  print_taken s trick_nr =
      let cards =
        if ltb trick_nr 10 then substr s 6 (length s - 9) else substr s 7 (length s - 10) in
      codes "A trick "
      ++ to_string trick_nr
      ++ codes " is taken by "
      ++ (get_or s (length s - 3) 0 ∷ [])
      ++ codes ", cards"
      ++ print_data (extract_cards boost cards)
      ++ codes ".\n"

  score_lines : List Bytes → Bytes
  score_lines [] = []
  score_lines ([] ∷ scores) = codes "\0 | \n" ++ score_lines scores
  score_lines ((c ∷ s) ∷ scores) = (c ∷ codes " | ") ++ (s ++ (codes "\n" ++ score_lines scores))

  unfoldable pub print_score : Bytes → Bytes
  unfolding score_lines
  print_score s =
      codes "The scores are:\n"
      ++ score_lines (extract_seat_score boost (substr s 5 (length s - 7)))

  unfoldable pub print_total : Bytes → Bytes
  unfolding score_lines
  print_total s =
      codes "The total scores are:\n"
      ++ score_lines (extract_seat_score boost (substr s 5 (length s - 7)))

  unfoldable pub print_trick : Bytes → ℕ → List Bytes → Bytes
  print_trick s trick_nr my_cards =
      let cards =
        if ltb trick_nr 10 then substr s 6 (length s - 8) else substr s 7 (length s - 9) in
      codes "Trick: ("
      ++ to_string trick_nr
      ++ codes ")"
      ++ print_data (extract_cards boost cards)
      ++ codes "\nAvailable cards:"
      ++ print_data my_cards
      ++ codes "\n"

unfoldable pub print_my_cards : List Bytes → Bytes
print_my_cards my_cards = print_data my_cards ++ codes ".\n"

unfoldable pub print_my_tricks : List (List Bytes) → Bytes
print_my_tricks [] = []
print_my_tricks (trick ∷ tricks) = print_data trick ++ (codes "\n" ++ print_my_tricks tricks)
