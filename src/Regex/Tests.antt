-- ===== src/Regex/Tests.antt =====
-- The pattern `^ab.*` and a text that it matches.
use query_plan_adapters.Base.{◌≡◌, ◌↔◌, true, false, some, text}
use query_plan_adapters.Regex.{
  SafeRegexPattern, parse_safe_regex_pattern, matches_safe_regex_pattern,
}
use query_plan_adapters.Regex.Parsing.{IsSafe, render, parse_safe_regex_pattern_iff}
use query_plan_adapters.Regex.Matching.{Occurs, matches_safe_regex_pattern_iff}

abbrev prefix_ab : SafeRegexPattern
prefix_ab = record {
  literal = text "ab";
  anchored_start = true;
  anchored_end = false;
  trailing_wildcard = true;
}

parse_safe_regex_pattern_iff_example :
    (parse_safe_regex_pattern (text "^ab.*") ≡ some prefix_ab)
    ↔ (IsSafe prefix_ab × (render prefix_ab ≡ text "^ab.*"))
parse_safe_regex_pattern_iff_example = parse_safe_regex_pattern_iff (text "^ab.*") prefix_ab

matches_safe_regex_pattern_iff_example :
    (matches_safe_regex_pattern (text "abc") prefix_ab ≡ true) ↔ Occurs prefix_ab (text "abc")
matches_safe_regex_pattern_iff_example = matches_safe_regex_pattern_iff (text "abc") prefix_ab
