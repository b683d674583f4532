-- ===== src/Prelude/Chars.antt =====
-- Texts read character by character: the parts of Python's `str` methods that the URI parser uses.
use Prim.Native.Nat.{compare, Ordering}
use Prim.Native.Char.{Char, code}
use Prim.Native.String.{◌++◌}
use Prim.Native.String.append
use native.Mathlib.Omega.{arith}
use mathlib.Core.Bool.{Bool, true, false, ◌&&◌, ◌||◌}
use tech_challenge_fase2_alf.Prelude.{ℕ, String, ◌≡◌, refl, if◌then◌else◌, leb, suc}

-- The text before the first character that passes the test, or all of it.
unfoldable pub before : (Char → Bool) → String → String
before p String.[] = ""
before p (String.◌∷◌ c s) = let rest = before p s in if p c then "" else String.◌∷◌ c rest

-- The text from the first character that passes the test on.
unfoldable pub from : (Char → Bool) → String → String
from p String.[] = ""
from p (String.◌∷◌ c s) = let rest = from p s in if p c then String.◌∷◌ c s else rest

-- The text without its first character.
abbrev pub tail_text : String → String
tail_text String.[] = ""
tail_text (String.◌∷◌ c s) = s

-- The text without the characters that pass the test.
unfoldable pub without : (Char → Bool) → String → String
without p String.[] = ""
without p (String.◌∷◌ c s) = let rest = without p s in if p c then rest else String.◌∷◌ c rest

-- `text.lstrip(...)` of the characters that pass the test.
unfoldable pub lstrip : (Char → Bool) → String → String
lstrip p String.[] = ""
lstrip p (String.◌∷◌ c s) = let rest = lstrip p s in if p c then rest else String.◌∷◌ c s

-- Every character passes the test.
unfoldable pub all_chars : (Char → Bool) → String → Bool
all_chars p String.[] = true
all_chars p (String.◌∷◌ c s) = p c && all_chars p s

-- Some character passes the test.
unfoldable pub any_char : (Char → Bool) → String → Bool
any_char p String.[] = false
any_char p (String.◌∷◌ c s) = p c || any_char p s

abbrev pub is_char : ℕ → Char → Bool
is_char n c = elim (compare (code c) n) [ Ordering.eq ↦ true | _ ↦ false ]

-- `len(text)`, in characters.
unfoldable pub text_count : String → ℕ
text_count String.[] = 0
text_count (String.◌∷◌ c s) = suc (text_count s)

-- The second text starts with the first.
unfoldable pub begins_with : String → String → Bool
begins_with String.[] t = true
begins_with (String.◌∷◌ c s) String.[] = false
begins_with (String.◌∷◌ c s) (String.◌∷◌ d t) = is_char (code c) d && begins_with s t

abbrev pub within : ℕ → ℕ → Char → Bool
within low high c = leb low (code c) && leb (code c) high

module _ (p : Char → Bool) where
  pub before_run :
      (s t : String) (c : Char)
      → any_char p s ≡ false
      → p c ≡ true
      → before p (s ++ String.◌∷◌ c t) ≡ s
  unfolding before any_char
  before_run String.[] t c none_in stops = rw (append.nil, stops) refl
  before_run (String.◌∷◌ d s) t c none_in stops = rw append.cons (ground (arith, before_run s t c))

  pub from_run :
      (s t : String) (c : Char)
      → any_char p s ≡ false
      → p c ≡ true
      → from p (s ++ String.◌∷◌ c t) ≡ String.◌∷◌ c t
  unfolding from any_char
  from_run String.[] t c none_in stops = rw (append.nil, stops) refl
  from_run (String.◌∷◌ d s) t c none_in stops = rw append.cons (ground (arith, from_run s t c))

  pub before_all : (s : String) → any_char p s ≡ false → before p s ≡ s
  unfolding before any_char
  before_all String.[] none_in = refl
  before_all (String.◌∷◌ d s) none_in = ground (arith, before_all s)

  pub without_none : (s : String) → any_char p s ≡ false → without p s ≡ s
  unfolding without any_char
  without_none String.[] none_in = refl
  without_none (String.◌∷◌ d s) none_in = ground (arith, without_none s)

  pub any_char-append :
      (s t : String) → any_char p s ≡ false → any_char p t ≡ false → any_char p (s ++ t) ≡ false
  unfolding any_char
  any_char-append String.[] t none_s none_t = rw append.nil none_t
  any_char-append (String.◌∷◌ d s) t none_s none_t =
      rw append.cons (ground (arith, any_char-append s t))
