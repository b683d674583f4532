-- ===== src/Batch/GoogleStorage/Uri.antt =====
-- src/alfabetizacao_pipeline/batch/google_storage.py: `_split_gs_uri`, with the part of Python's
-- `urlsplit` that it reads. The check that `urlsplit` makes of a host (brackets, Unicode forms) is a
-- parameter, which gives the message of its `ValueError`.
use tech_challenge_fase2_alf.Batch.Errors.{BatchError, value_error}
use tech_challenge_fase2_alf.Prelude.Results.{Result, ok, err}
use tech_challenge_fase2_alf.Prelude.Chars.{
  is_char, within, before, any_char, lstrip, all_chars, from, tail_text, without, without_none,
  any_char-append, before_run, from_run, before_all,
}
use tech_challenge_fase2_alf.Prelude.{
  ◌≡◌, String, Bool, leb, ◌||◌, false, if◌then◌else◌, true, ◌<>◌, Option, ◌&&◌, ◌==◌, ◌≢◌, none,
  ◌+◌, some, nat_eq, not, arith, string_eq, refl, ap, ◌∙◌,
}
use Prim.Native.Char.{Char, code}
use Prim.Native.String.append

pub record SplitUrl : Type 0 where
  -- As written; Python makes it lower case.
  pub scheme : String
  pub netloc : String
  pub path : String

abbrev pub is_slash : Char → Bool
is_slash = is_char b'/'

-- Tabs and line ends, which `urlsplit` removes.
abbrev pub is_unsafe : Char → Bool
is_unsafe c = is_char 9 c || is_char 10 c || is_char 13 c

abbrev is_control : Char → Bool
is_control c = leb (code c) 32

abbrev is_letter : Char → Bool
is_letter c = within b'a' b'z' c || within b'A' b'Z' c

abbrev is_scheme_char : Char → Bool
is_scheme_char c =
    is_letter c || within b'0' b'9' c || is_char b'+' c || is_char b'-' c || is_char b'.' c

-- What ends the host.
abbrev pub is_delimiter : Char → Bool
is_delimiter c = is_slash c || is_char b'?' c || is_char b'#' c

abbrev starts_with_letter : String → Bool
starts_with_letter String.[] = false
starts_with_letter (String.◌∷◌ c s) = is_letter c

-- The scheme and the rest of the URL.
abbrev strip_scheme : String → String × String
strip_scheme url =
    let head = before (is_char b':') url in
    if any_char (is_char b':') url && starts_with_letter head && all_chars is_scheme_char head
    then (head, tail_text (from (is_char b':') url))
    else ("", url)

-- The host and the rest of the URL.
abbrev strip_netloc : String → String × String
strip_netloc (String.◌∷◌ c (String.◌∷◌ d rest)) =
    if is_slash c && is_slash d
    then (before is_delimiter rest, from is_delimiter rest)
    else ("", String.◌∷◌ c (String.◌∷◌ d rest))
strip_netloc url = ("", url)

-- `urlsplit`
unfoldable pub urlsplit : String → SplitUrl
urlsplit url =
    let (scheme, rest) = strip_scheme (without is_unsafe (lstrip is_control url)) in
    let (netloc, rest) = strip_netloc rest in
    record {
      scheme = scheme;
      netloc = netloc;
      path = before (is_char b'?') (before (is_char b'#') rest);
    }

-- The first text is the second, in small letters, when its own letters are made small.
abbrev pub same_lower : String → String → Bool
same_lower String.[] String.[] = true
same_lower (String.◌∷◌ c s) (String.◌∷◌ d t) =
    (is_char (code d) c || within b'A' b'Z' c && (code c + 32 == code d)) && same_lower s t
same_lower _ _ = false

-- `f"gs://{bucket}/{name}"`
abbrev pub gs_uri : String → String → String
gs_uri bucket name = "gs://" <> bucket <> "/" <> name

-- The host's `ValueError`, or the guards and the result, of the parts.
abbrev checked_parts : Option String → String → SplitUrl → Result BatchError (String × String)
checked_parts (some message) uri parsed = err (value_error message)
checked_parts none uri parsed =
    let name = lstrip is_slash parsed.path in
    if not (same_lower parsed.scheme "gs") || parsed.netloc == "" || name == ""
    then err (value_error uri)
    else ok (parsed.netloc, name)

module _ (check_netloc : String → Option String) where
  -- `_split_gs_uri`
  unfoldable pub split_gs_uri : String → Result BatchError (String × String)
  split_gs_uri uri =
      let parsed = urlsplit uri in checked_parts (check_netloc parsed.netloc) uri parsed

-- What the URI of an object cannot carry.
abbrev pub is_lost : Char → Bool
is_lost c = is_unsafe c || is_char b'?' c || is_char b'#' c

-- A bucket and an object's name that a URI can carry.
abbrev pub IsBucket : String → Type 0
IsBucket bucket =
    (any_char is_lost bucket ≡ false) × (any_char is_slash bucket ≡ false) × (bucket ≢ "")

abbrev pub IsName : String → Type 0
IsName name = (any_char is_lost name ≡ false) × (lstrip is_slash name ≡ name) × (name ≢ "")

-- The whole URI, spelled out.
abbrev spelled : String → String
spelled rest =
    String.◌∷◌ "g" (String.◌∷◌ "s" (String.◌∷◌ ":" (String.◌∷◌ "/" (String.◌∷◌ "/" rest))))

gs_uri-spelled :
    (bucket name : String) → gs_uri bucket name ≡ spelled (bucket <> String.◌∷◌ "/" name)
gs_uri-spelled bucket name =
    rw
      (
        append.cons "g" "s://",
        append.cons "s" "://",
        append.cons ":" "//",
        append.cons "/" "/",
        append.cons "/" "" (bucket <> "/" <> name),
        append.nil (bucket <> "/" <> name),
        append.cons "/" "" name,
        append.nil name,
      )
      refl

cleaned-spelled :
    (t : String)
    → any_char is_unsafe t ≡ false
    → without is_unsafe (lstrip is_control (spelled t)) ≡ spelled t
unfolding without lstrip
cleaned-spelled t safe = rw (without_none is_unsafe t safe) refl

lost_split :
    (s : String)
    → any_char is_lost s ≡ false
    → (any_char is_unsafe s ≡ false)
      × (any_char (is_char b'?') s ≡ false)
      × (any_char (is_char b'#') s ≡ false)
unfolding any_char
lost_split String.[] h = (refl, refl, refl)
lost_split (String.◌∷◌ c s) h = ground (arith, lost_split s)

delimiter_split :
    (s : String)
    → any_char is_lost s ≡ false
    → any_char is_slash s ≡ false
    → any_char is_delimiter s ≡ false
unfolding any_char
delimiter_split String.[] h k = refl
delimiter_split (String.◌∷◌ c s) h k = ground (arith, delimiter_split s)

urlsplit-gs_uri :
    (bucket name : String)
    → IsBucket bucket
    → IsName name
    → urlsplit (gs_uri bucket name)
      ≡ record { scheme = "gs"; netloc = bucket; path = String.◌∷◌ "/" name }
unfolding urlsplit any_char before from all_chars
urlsplit-gs_uri bucket name (lost, slash, full) (lost_name, stripped, full_name) =
    let rest = String.◌∷◌ "/" name in
    let (safe, mark, hash) = lost_split bucket lost in
    let (safe_name, mark_name, hash_name) = lost_split name lost_name in
    let safe_all = any_char-append is_unsafe bucket rest safe safe_name in
    let host_end = delimiter_split bucket lost slash in
    rw
      (
        gs_uri-spelled,
        cleaned-spelled (bucket <> rest) safe_all,
        before_run is_delimiter bucket name "/" host_end refl,
        from_run is_delimiter bucket name "/" host_end refl,
        before_all (is_char b'#') name hash_name,
        before_all (is_char b'?') name mark_name,
      )
      refl

module _ (check_netloc : String → Option String) where
  -- The URI that is written of a bucket and an object's name is split into them again, where
  -- both are not empty and have none of the characters that a URI cannot carry, the bucket has
  -- no slash and is accepted as a host, and the name does not begin with a slash.
  pub split_gs_uri-gs_uri :
      (bucket name : String)
      → IsBucket bucket
      → IsName name
      → check_netloc bucket ≡ none
      → split_gs_uri check_netloc (gs_uri bucket name) ≡ ok (bucket, name)
  unfolding split_gs_uri lstrip
  split_gs_uri-gs_uri bucket name b n valid =
      let (lost, stripped, full) = n in
      let some_bucket : (bucket == "") ≡ false = ground arith in
      let some_name : (name == "") ≡ false = ground arith in
      ap (λ parsed. checked_parts (check_netloc parsed.netloc) (gs_uri bucket name) parsed)
        (urlsplit-gs_uri bucket name b n)
      ∙ rw (valid, stripped, some_bucket, some_name) refl

checked_parts_raises :
    (refused : Option String) (uri : String) (parsed : SplitUrl) (e : BatchError)
    → checked_parts refused uri parsed ≡ err e
    → (message : String) × (e ≡ value_error message)
checked_parts_raises (some message) uri parsed e h = (message, ground arith)
checked_parts_raises none uri parsed e h = ground arith

-- A URI that is not split is an invalid value.
pub split_gs_uri_raises :
    (check_netloc : String → Option String) (uri : String) (e : BatchError)
    → split_gs_uri check_netloc uri ≡ err e
    → (message : String) × (e ≡ value_error message)
unfolding split_gs_uri
split_gs_uri_raises check_netloc uri e h =
    let parsed = urlsplit uri in checked_parts_raises (check_netloc parsed.netloc) uri parsed e h
