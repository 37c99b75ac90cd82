-- ===== src/Mongoose/Pattern/Tests.antt =====
-- mongoose/src/regex.ts: patterns at concrete texts.
use query_plan_adapters.Base.{◌≡◌, refl, text}
use query_plan_adapters.Mongoose.Pattern.Literals.{
  normalize_re2_pattern_for_mongo-escape_regex_value,
}
use query_plan_adapters.Mongoose.Pattern.{
  done, refused, invalid_quantifier, inner_dollar, escape_regex_value,
  normalize_re2_pattern_for_mongo,
}

runs :
    (normalize_re2_pattern_for_mongo (text "^a+\\.b$") ≡ done (text "^a+\\.b\\z"))
    × (normalize_re2_pattern_for_mongo (text "a$b") ≡ refused inner_dollar)
    × (normalize_re2_pattern_for_mongo (text "^*") ≡ refused invalid_quantifier)
    × (escape_regex_value (text "a.b") ≡ text "a\\.b")
unfolding normalize_re2_pattern_for_mongo escape_regex_value
runs = (refl, refl, refl, refl)

normalize_re2_pattern_for_mongo-escape_regex_value_example :
    normalize_re2_pattern_for_mongo (escape_regex_value (text "a.b$"))
    ≡ done (escape_regex_value (text "a.b$"))
normalize_re2_pattern_for_mongo-escape_regex_value_example =
    normalize_re2_pattern_for_mongo-escape_regex_value (text "a.b$") refl
