-- ===== src/Prelude/Text.antt =====
-- The texts that Python's f-strings make of numbers.
use tech_challenge_fase2_alf.Prelude.{
  ℕ, ◌<>◌, String, suc, if◌then◌else◌, ◌≡◌, ◌/◌, ltb, refl, zero, ◌%◌,
}

pub digit_text : ℕ → String
digit_text zero = "0"
digit_text (suc zero) = "1"
digit_text (suc (suc zero)) = "2"
digit_text (suc (suc (suc zero))) = "3"
digit_text (suc (suc (suc (suc zero)))) = "4"
digit_text (suc (suc (suc (suc (suc zero))))) = "5"
digit_text (suc (suc (suc (suc (suc (suc zero)))))) = "6"
digit_text (suc (suc (suc (suc (suc (suc (suc zero))))))) = "7"
digit_text (suc (suc (suc (suc (suc (suc (suc (suc zero)))))))) = "8"
digit_text _ = "9"

-- The last `n` decimal digits, with leading zeros: `{:05d}` of a number below 100000.
unfoldable pub show_padded : ℕ → ℕ → String
unfolding digit_text
show_padded zero k = ""
show_padded (suc n) k = show_padded n (k / 10) <> digit_text (k % 10)

-- The number of decimal digits, at least one. The fuel `k` is enough for `k`.
decimal_width : ℕ → ℕ → ℕ
decimal_width zero k = 1
decimal_width (suc f) k = let rest = decimal_width f (k / 10) in if ltb k 10 then 1 else suc rest

-- `str(k)`
unfoldable pub show : ℕ → String
unfolding decimal_width show_padded
show k = show_padded (decimal_width k k) k

-- `f"{k:05d}"`
unfoldable pub show_05 : ℕ → String
unfolding show_padded show
show_05 k = if ltb k 100000 then show_padded 5 k else show k

-- `f"{k:02d}"`
unfoldable pub show_02 : ℕ → String
unfolding show_padded show
show_02 k = if ltb k 100 then show_padded 2 k else show k

show_2024 : show 2024 ≡ "2024"
unfolding show
show_2024 = refl

show_zero : show 0 ≡ "0"
unfolding show
show_zero = refl

show_05_7 : show_05 7 ≡ "00007"
unfolding show_05
show_05_7 = refl
