-- ===== src/Batch/GoogleBigQuery/Destination.antt =====
-- src/alfabetizacao_pipeline/batch/google_bigquery.py: the patterns of a snapshot's destination and
-- of a number of rows. No class of the patterns has the character that ends its run, so that the
-- text before that character is the run.
use tech_challenge_fase2_alf.Prelude.Chars.{is_char, within, all_chars, before, from}
use tech_challenge_fase2_alf.Prelude.{
  String, Bool, ℕ, ◌||◌, ◌&&◌, Option, false, ◌*◌, if◌then◌else◌, ◌==◌, ◌+◌, some, ◌-◌, string_eq,
  none,
}
use Prim.Native.Char.{Char, code}

abbrev pub is_star : Char → Bool
is_star = is_char b'*'

abbrev is_lower_or_digit : Char → Bool
is_lower_or_digit c = within b'a' b'z' c || within b'0' b'9' c

-- `[a-z0-9._-]`
abbrev is_bucket_char : Char → Bool
is_bucket_char c = is_lower_or_digit c || is_char b'.' c || is_char b'_' c || is_char b'-' c

-- `[A-Za-z0-9._~=/+-]`
abbrev is_path_char : Char → Bool
is_path_char c =
    is_bucket_char c
    || within b'A' b'Z' c
    || is_char b'~' c
    || is_char b'=' c
    || is_char b'/' c
    || is_char b'+' c

-- `[a-z0-9][a-z0-9._-]+`
abbrev is_bucket : String → Bool
is_bucket (String.◌∷◌ c (String.◌∷◌ d s)) =
    is_lower_or_digit c && is_bucket_char d && all_chars is_bucket_char s
is_bucket _ = false

-- `/[A-Za-z0-9._~=/+-]*\*\.parquet`
abbrev is_object_pattern : String → Bool
is_object_pattern (String.◌∷◌ c s) =
    is_char b'/' c && all_chars is_path_char (before is_star s) && from is_star s == "*.parquet"
is_object_pattern _ = false

-- The text after `gs://`.
abbrev after_scheme : String → Option String
after_scheme (String.◌∷◌ a (String.◌∷◌ b (String.◌∷◌ c (String.◌∷◌ d (String.◌∷◌ e s))))) =
    if is_char b'g' a && is_char b's' b && is_char b':' c && is_char b'/' d && is_char b'/' e
    then some s
    else none
after_scheme _ = none

-- `SNAPSHOT_DESTINATION_PATTERN.fullmatch(uri)`
unfoldable pub is_destination : String → Bool
is_destination uri = elim (after_scheme uri) [
  | none ↦ false
  | some s ↦ is_bucket (before (is_char b'/') s) && is_object_pattern (from (is_char b'/') s)
]

abbrev is_digit : Char → Bool
is_digit = within b'0' b'9'

-- `ROW_COUNT_PATTERN.fullmatch(text)`
unfoldable pub is_row_count : String → Bool
is_row_count String.[] = false
is_row_count (String.◌∷◌ c s) =
    is_char b'0' c && s == "" || within b'1' b'9' c && all_chars is_digit s

unfoldable digits_from : ℕ → String → ℕ
digits_from n String.[] = n
digits_from n (String.◌∷◌ c s) = digits_from (10 * n + (code c - b'0')) s

-- `int(text)`, of digits
unfoldable pub number_of : String → ℕ
unfolding digits_from
number_of s = digits_from 0 s
