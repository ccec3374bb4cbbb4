-- ===== src/Klient/Finish.antt =====
-- The end of a deal for the client: SCORE, TOTAL and a closed connection.
use kierki_sik.Prelude.{ℕ, ◌≡◌, refl, Bool, true, false, codes, arith}
use kierki_sik.Seats.{Seat}
use kierki_sik.Regex.{Boost, busy_check, deal_check, wrong_check, taken_check, score_check}
use kierki_sik.Messages.{score_message, total_message}
use kierki_sik.Messages.Scores.{points, score_check-points, total_check-points}
use kierki_sik.Klient.{Klient, receive, socket_closed, normal_end}
use kierki_sik.Klient.Dispatch.{other_word}

module _ (boost : Boost) (f : Seat → ℕ) where
  score_not_busy : busy_check boost (score_message (points f)) ≡ false
  unfolding busy_check
  score_not_busy = other_word boost (codes "BUSY") _ _ (λ t e. ground arith)

  score_not_deal : deal_check boost (score_message (points f)) ≡ false
  unfolding deal_check
  score_not_deal = other_word boost (codes "DEAL") _ _ (λ t e. ground arith)

  score_not_wrong : wrong_check boost (score_message (points f)) ≡ false
  unfolding wrong_check
  score_not_wrong = other_word boost (codes "WRONG") _ _ (λ t e. ground arith)

  score_not_taken : (n : ℕ) → taken_check boost (score_message (points f)) n ≡ false
  unfolding taken_check
  score_not_taken n = other_word boost (codes "TAKEN") _ _ (λ t e. ground arith)

  total_not_busy : busy_check boost (total_message (points f)) ≡ false
  unfolding busy_check
  total_not_busy = other_word boost (codes "BUSY") _ _ (λ t e. ground arith)

  total_not_deal : deal_check boost (total_message (points f)) ≡ false
  unfolding deal_check
  total_not_deal = other_word boost (codes "DEAL") _ _ (λ t e. ground arith)

  total_not_wrong : wrong_check boost (total_message (points f)) ≡ false
  unfolding wrong_check
  total_not_wrong = other_word boost (codes "WRONG") _ _ (λ t e. ground arith)

  total_not_taken : (n : ℕ) → taken_check boost (total_message (points f)) n ≡ false
  unfolding taken_check
  total_not_taken n = other_word boost (codes "TAKEN") _ _ (λ t e. ground arith)

  total_not_score : score_check boost (total_message (points f)) ≡ false
  unfolding score_check
  total_not_score = other_word boost (codes "SCORE") _ _ (λ t e. ground arith)

  receive-score :
      (written : Bool) (k : Klient)
      → (receive boost written (score_message (points f)) k).0 ≡ record k { got_score = true }
  unfolding receive
  receive-score written k =
      rw
        (
          score_not_busy,
          score_not_deal,
          score_not_wrong,
          score_not_taken k.trick_number,
          score_check-points boost f,
        )
        refl

  receive-total :
      (written : Bool) (k : Klient)
      → (receive boost written (total_message (points f)) k).0 ≡ record k { got_total = true }
  unfolding receive
  receive-total written k =
      rw
        (
          total_not_busy,
          total_not_deal,
          total_not_wrong,
          total_not_taken k.trick_number,
          total_not_score,
          total_check-points boost f,
        )
        refl

-- A client that was sent the scores and the totals of a deal, none of them negative, takes a closed
-- connection as the normal end of the game.
receive-normal_end :
    (boost : Boost) (written : Bool) (f g : Seat → ℕ) (k : Klient)
    → socket_closed
        (receive boost written
          (total_message (points g))
          (receive boost written (score_message (points f)) k).0).0
      ≡ normal_end
unfolding socket_closed
receive-normal_end boost written f g k =
    rw
      (
        receive-score boost f written k,
        receive-total boost g written (record k { got_score = true }),
      )
      refl
