-- ===== src/Messages/Numbers.antt =====
-- The texts of trick numbers, and cutting the line's end off a message.
use kierki_sik.Prelude.{
  ℕ, zero, suc, ◌+◌, ◌-◌, ◌≤◌, ◌<◌, ◌≡◌, refl, [], ◌∷◌, ◌++◌, Bytes, length, length-append, take,
  take_prefix, arith,
}
use kierki_sik.Decimal.{to_string}
use kierki_sik.Messages.{delimeter}

pub short_number : (n : ℕ) → 1 ≤ n → n < 10 → to_string n ≡ (b'0' + n) ∷ []
unfolding to_string
short_number zero l h = absurd (omega arith)
short_number (suc zero) l h = refl
short_number (suc (suc zero)) l h = refl
short_number (suc (suc (suc zero))) l h = refl
short_number (suc (suc (suc (suc zero)))) l h = refl
short_number (suc (suc (suc (suc (suc zero))))) l h = refl
short_number (suc (suc (suc (suc (suc (suc zero)))))) l h = refl
short_number (suc (suc (suc (suc (suc (suc (suc zero))))))) l h = refl
short_number (suc (suc (suc (suc (suc (suc (suc (suc zero)))))))) l h = refl
short_number (suc (suc (suc (suc (suc (suc (suc (suc (suc zero))))))))) l h = refl
short_number (suc (suc (suc (suc (suc (suc (suc (suc (suc (suc n)))))))))) l h =
    absurd (omega arith)

-- The second digit of 10 to 13.
pub long_number : (n : ℕ) → 10 ≤ n → n ≤ 13 → to_string n ≡ b'1' ∷ (b'0' + (n - 10)) ∷ []
unfolding to_string
long_number zero l h = absurd (omega arith)
long_number (suc zero) l h = absurd (omega arith)
long_number (suc (suc zero)) l h = absurd (omega arith)
long_number (suc (suc (suc zero))) l h = absurd (omega arith)
long_number (suc (suc (suc (suc zero)))) l h = absurd (omega arith)
long_number (suc (suc (suc (suc (suc zero))))) l h = absurd (omega arith)
long_number (suc (suc (suc (suc (suc (suc zero)))))) l h = absurd (omega arith)
long_number (suc (suc (suc (suc (suc (suc (suc zero))))))) l h = absurd (omega arith)
long_number (suc (suc (suc (suc (suc (suc (suc (suc zero)))))))) l h = absurd (omega arith)
long_number (suc (suc (suc (suc (suc (suc (suc (suc (suc zero))))))))) l h = absurd (omega arith)
long_number (suc (suc (suc (suc (suc (suc (suc (suc (suc (suc zero)))))))))) l h = refl
long_number (suc (suc (suc (suc (suc (suc (suc (suc (suc (suc (suc zero))))))))))) l h = refl
long_number (suc (suc (suc (suc (suc (suc (suc (suc (suc (suc (suc (suc zero)))))))))))) l h = refl
long_number (suc (suc (suc (suc (suc (suc (suc (suc (suc (suc (suc (suc (suc zero))))))))))))) l h =
    refl
long_number (suc (suc (suc (suc (suc (suc (suc (suc (suc (suc (suc (suc (suc (suc n)))))))))))))) l
      h =
    absurd (omega arith)

-- `substr(k, size - (k + 2))` behind `k` characters drops the line's end.
pub cut_end : (t : Bytes) (n : ℕ) → n ≡ length (t ++ delimeter) - 2 → take n (t ++ delimeter) ≡ t
cut_end t n e = take_prefix t delimeter n (omega (arith, length-append t delimeter))
