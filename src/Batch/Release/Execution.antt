-- ===== src/Batch/Release/Execution.antt =====
-- src/alfabetizacao_pipeline/batch/release_models.py: the constructor of `ReleaseExecution`.
use tech_challenge_fase2_alf.Batch.Release.{ReleaseExecution}
use tech_challenge_fase2_alf.Prelude.Chars.{
  all_chars, any_char, before, from, is_char, tail_text, text_count, within,
}
use tech_challenge_fase2_alf.Prelude.{
  String, Bool, ℕ, Option, none, some, false, ◌&&◌, ◌||◌, ◌==◌, ◌+◌, ◌*◌, ◌-◌, leb, string_eq,
  nat_eq, if◌then◌else◌,
}
use Prim.Native.Char.{Char, code}

abbrev is_dash : Char → Bool
is_dash = is_char b'-'

-- The texts before the first dash, and after it.
abbrev pub dash_head : String → String
dash_head = before is_dash

abbrev pub dash_tail : String → String
dash_tail s = tail_text (from is_dash s)

abbrev is_digit : Char → Bool
is_digit = within b'0' b'9'

-- `[0-9]{count}`
abbrev pub has_digits : ℕ → String → Bool
has_digits count s = all_chars is_digit s && (text_count s == count)

-- `y[0-9]{4}`
unfoldable pub is_year_part : String → Bool
is_year_part String.[] = false
is_year_part (String.◌∷◌ c s) = is_char b'y' c && has_digits 4 s

-- `r[a-z0-9]{8,32}`
unfoldable pub is_run_part : String → Bool
is_run_part String.[] = false
is_run_part (String.◌∷◌ c s) =
    is_char b'r' c
    && all_chars (λ d. within b'a' b'z' d || is_digit d) s
    && leb 8 (text_count s)
    && leb (text_count s) 32

-- `^batch-[0-9]{6}-y[0-9]{4}-r[a-z0-9]{8,32}$`. No part has a dash.
unfoldable pub is_release_id : String → Bool
is_release_id id =
    let rest = dash_tail id in
    let last = dash_tail rest in
    any_char is_dash id
    && dash_head id == "batch"
    && any_char is_dash rest
    && has_digits 6 (dash_head rest)
    && any_char is_dash last
    && is_year_part (dash_head last)
    && is_run_part (dash_tail last)

-- `int(text)`, of digits
unfoldable pub number_from : ℕ → String → ℕ
number_from acc String.[] = acc
number_from acc (String.◌∷◌ c s) = number_from (acc * 10 + (code c - 48)) s

-- `int(self.release_id.split("-")[2][1:])`
unfoldable pub identifier_year : String → ℕ
identifier_year id = number_from 0 (tail_text (dash_head (dash_tail (dash_tail id))))

-- The execution, if its fields are valid and its year is that of its identifier.
unfoldable pub release_execution : String → ℕ → Option ReleaseExecution
release_execution id year =
    if is_release_id id && leb 2000 year && leb year 2100 && year == identifier_year id
    then some (record { release_id = id; year = year })
    else none
