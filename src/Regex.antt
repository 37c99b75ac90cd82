-- ===== src/Regex.antt =====
-- convex/src/regex.ts: the subset of RE2 that the post-filter answers.
pub mod Matching
pub mod Parsing
mod Tests
use query_plan_adapters.Base.{
  ℕ, Bool, true, false, ◌&&◌, ◌||◌, Option, none, some, [], ◌∷◌, leb, ◌==◌, if◌then◌else◌, Text,
  text_eq, starts_with, ends_with, includes,
}

-- `SafeRegexPattern`
pub record SafeRegexPattern : Type 0 where
  pub literal : Text
  pub anchored_start : Bool
  pub anchored_end : Bool
  pub trailing_wildcard : Bool

-- `[A-Za-z0-9 _:/-]`
abbrev pub is_plain_char : ℕ → Bool
is_plain_char c =
    (leb b'A' c && leb c b'Z')
    || (leb b'a' c && leb c b'z')
    || (leb b'0' c && leb c b'9')
    || (c == b' ')
    || (c == b'_')
    || (c == b':')
    || (c == b'/')
    || (c == b'-')

-- The longest prefix of plain characters, and the rest. No plain character can stand in the groups
-- behind, so the lazy group of the source takes the same characters.
unfoldable pub take_plain : Text → Text × Text
take_plain [] = ([], [])
take_plain (c ∷ s) =
    let (plain, rest) = take_plain s in if is_plain_char c then (c ∷ plain, rest) else ([], c ∷ s)

abbrev pub tail_flags : Text → Option (Bool × Bool)
tail_flags [] = some (false, false)
tail_flags (c ∷ []) = if c == b'$' then some (false, true) else none
tail_flags (c ∷ d ∷ []) = if (c == b'.') && (d == b'*') then some (true, false) else none
tail_flags (c ∷ d ∷ e ∷ s) = none

abbrev pub with_flags : Bool → Text → Option (Bool × Bool) → Option SafeRegexPattern
with_flags start [] flags = none
with_flags start (c ∷ s) none = none
with_flags start (c ∷ s) (some (wildcard, anchored)) = some (record {
  literal = c ∷ s;
  anchored_start = start;
  anchored_end = anchored;
  trailing_wildcard = wildcard;
})

abbrev pub parse_body : Bool → Text × Text → Option SafeRegexPattern
parse_body start (plain, rest) = with_flags start plain (tail_flags rest)

-- `parseSafeRegexPattern`: a wildcard before an end anchor, `.*$`, is none of the tails above.
unfoldable pub parse_safe_regex_pattern : Text → Option SafeRegexPattern
unfolding take_plain
parse_safe_regex_pattern [] = parse_body false (take_plain [])
parse_safe_regex_pattern (c ∷ s) =
    if c == b'^' then parse_body true (take_plain s) else parse_body false (take_plain (c ∷ s))

-- `matchesSafeRegexPattern`
unfoldable pub matches_safe_regex_pattern : Text → SafeRegexPattern → Bool
unfolding text_eq starts_with ends_with includes
matches_safe_regex_pattern receiver pattern =
    if pattern.anchored_start && pattern.anchored_end
    then text_eq receiver pattern.literal
    else if pattern.anchored_start
    then starts_with receiver pattern.literal
    else if pattern.anchored_end
    then ends_with receiver pattern.literal
    else includes receiver pattern.literal
