-- ===== src/Messages.antt =====
-- senders.h and senders.cpp: the texts of the protocol's messages. `senders::send_*` builds one and
-- hands it to `write_to_socket` (Sockets.antt).
pub mod Words
pub mod TrickNumbers
pub mod Repeats
pub mod Scores
pub mod Numbers
pub mod Language
pub mod Bounds
pub mod Checks
use kierki_sik.Prelude.{ℕ, List, [], ◌∷◌, ◌++◌, Bytes, codes}
use kierki_sik.Prelude.Int.{ℤ}
use kierki_sik.Decimal.{to_string, to_string_int}

abbrev pub delimeter : Bytes
delimeter = codes "\r\n"

-- `for (card : cards) message += card`.
abbrev pub concat : List Bytes → Bytes
concat [] = []
concat (c ∷ cs) = c ++ concat cs

-- `for (score : scores) message += score.first + to_string(score.second)`.
abbrev pub concat_scores : List (Bytes × ℤ) → Bytes
concat_scores [] = []
concat_scores ((seat, n) ∷ scores) = seat ++ (to_string_int n ++ concat_scores scores)

abbrev pub iam_message : Bytes → Bytes
iam_message seat = codes "IAM" ++ (seat ++ delimeter)

abbrev pub busy_message : Bytes → Bytes
busy_message seats = codes "BUSY" ++ (seats ++ delimeter)

abbrev pub deal_message : ℕ → Bytes → List Bytes → Bytes
deal_message deal_type start_seat cards =
    codes "DEAL" ++ (to_string deal_type ++ (start_seat ++ (concat cards ++ delimeter)))

abbrev pub trick_message : ℕ → List Bytes → Bytes
trick_message trick_number cards =
    codes "TRICK" ++ (to_string trick_number ++ (concat cards ++ delimeter))

abbrev pub wrong_message : ℕ → Bytes
wrong_message trick_number = codes "WRONG" ++ (to_string trick_number ++ delimeter)

abbrev pub taken_message : ℕ → List Bytes → Bytes → Bytes
taken_message trick_number cards taking_seat =
    codes "TAKEN" ++ (to_string trick_number ++ (concat cards ++ (taking_seat ++ delimeter)))

abbrev pub score_message : List (Bytes × ℤ) → Bytes
score_message scores = codes "SCORE" ++ (concat_scores scores ++ delimeter)

abbrev pub total_message : List (Bytes × ℤ) → Bytes
total_message scores = codes "TOTAL" ++ (concat_scores scores ++ delimeter)
