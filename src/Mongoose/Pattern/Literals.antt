-- ===== src/Mongoose/Pattern/Literals.antt =====
-- mongoose/src/regex.ts: an escaped text is a pattern of the common subset.
use query_plan_adapters.Base.{
  ℕ, ◌≡◌, refl, ap, Bool, true, false, ◌||◌, [], ◌∷◌, any, ◌==◌, ltb, if◌then◌else◌, Text, arith,
}
use query_plan_adapters.Mongoose.Pattern.{
  done, backslash, is_metacharacter, escape_regex_value, escaped_literals, literal, kind_of, onto,
  normalize_from, normalize_re2_pattern_for_mongo,
}

-- The two lists have the same characters.
escaped-metacharacter :
    (c : ℕ) → is_metacharacter c ≡ true → any (λ d. d == c) escaped_literals ≡ true
escaped-metacharacter c h = ground arith

plain-kind_of : (c : ℕ) → is_metacharacter c ≡ false → ltb c 32 ≡ false → kind_of c ≡ literal
plain-kind_of c h k = ground arith

both_false : (b c : Bool) → (b || c) ≡ false → (b ≡ false) × (c ≡ false)
both_false true c h = cc
both_false false c h = (refl, h)

normalize_from-escape :
    (first can_quantify : Bool) (s : Text)
    → any (λ c. ltb c 32) s ≡ false
    → normalize_from first can_quantify false (escape_regex_value s) ≡ done (escape_regex_value s)
unfolding normalize_from escape_regex_value
normalize_from-escape first can_quantify [] h = refl
normalize_from-escape first can_quantify (c ∷ s) h =
    by_character (is_metacharacter c) refl
      (normalize_from-escape false true s (both_false (ltb c 32) (any (λ d. ltb d 32) s) h).1)
  where
    by_character :
        (meta : Bool)
        → is_metacharacter c ≡ meta
        → normalize_from false true false (escape_regex_value s) ≡ done (escape_regex_value s)
        → normalize_from first can_quantify false
            (if meta then backslash ∷ c ∷ escape_regex_value s else c ∷ escape_regex_value s)
          ≡ done (if meta then backslash ∷ c ∷ escape_regex_value s else c ∷ escape_regex_value s)
    by_character true m ih =
        rw (escaped-metacharacter c m, normalize_from) (ap (onto (backslash ∷ c ∷ [])) ih)
    by_character false m ih =
        rw (plain-kind_of c m (both_false (ltb c 32) (any (λ d. ltb d 32) s) h).0, normalize_from)
          (ap (onto (c ∷ [])) ih)

-- A text without control characters, escaped, is a pattern of the subset that RE2 and MongoDB read
-- identically, and stays as it is.
pub normalize_re2_pattern_for_mongo-escape_regex_value :
    (s : Text)
    → any (λ c. ltb c 32) s ≡ false
    → normalize_re2_pattern_for_mongo (escape_regex_value s) ≡ done (escape_regex_value s)
unfolding normalize_re2_pattern_for_mongo
normalize_re2_pattern_for_mongo-escape_regex_value s h = normalize_from-escape true false s h
