-- ===== src/Regex/Parsing.antt =====
-- convex/src/regex.ts, `parseSafeRegexPattern`: the patterns that are accepted.
use mathlib.Core.Bool.{and-eq-true_iff}
use mathlib.Core.List.{append_assoc}
use query_plan_adapters.Base.{
  ℕ, ◌≡◌, refl, sym, ap, ap₂, subst, ◌∙◌, ◌↔◌, inl, inr, Bool, true, false, ◌&&◌, Option, none,
  some, [], ◌∷◌, ◌++◌, ◌==◌, ==_iff, Bool-cases, Text, All, if◌then◌else◌,
}
use query_plan_adapters.Regex.{
  SafeRegexPattern, is_plain_char, take_plain, parse_body, with_flags, tail_flags,
  parse_safe_regex_pattern,
}

-- What stands behind the literal, and the whole pattern.
abbrev tail : SafeRegexPattern → Text
tail pattern =
    (if pattern.trailing_wildcard then b'.' ∷ b'*' ∷ [] else [])
    ++ (if pattern.anchored_end then b'$' ∷ [] else [])

abbrev pub render : SafeRegexPattern → Text
render pattern =
    (if pattern.anchored_start then b'^' ∷ [] else []) ++ pattern.literal ++ tail pattern

-- A literal that is not empty, of plain characters, and no wildcard before an end anchor.
abbrev HasLiteral : Text → Type 0
HasLiteral [] = ⊥
HasLiteral (c ∷ s) = All (λ a. is_plain_char a ≡ true) (c ∷ s)

abbrev pub IsSafe : SafeRegexPattern → Type 0
IsSafe pattern =
    HasLiteral pattern.literal × ((pattern.trailing_wildcard && pattern.anchored_end) ≡ false)

abbrev Taken : Text → Text × Text → Type 0
Taken s (plain, rest) = (plain ++ rest ≡ s) × All (λ a. is_plain_char a ≡ true) plain

taken :
    (c : ℕ) (s : Text) (b : Bool) (plain rest : Text)
    → is_plain_char c ≡ b
    → (plain ++ rest ≡ s) × All (λ a. is_plain_char a ≡ true) plain
    → Taken (c ∷ s) (if b then (c ∷ plain, rest) else ([], c ∷ s))
taken c s true plain rest h (p, q) = (ap (λ x. c ∷ x) p, (h, q))
taken c s false plain rest h (p, q) = (refl, tt)

take_plain_lem : (s : Text) → Taken s (take_plain s)
unfolding take_plain
take_plain_lem [] = (refl, tt)
take_plain_lem (c ∷ s) = taken c s (is_plain_char c) _ _ refl (take_plain_lem s)

-- The pattern that is read from a text, if one is, is safe and is written as that text.
abbrev Reads : Text → Option SafeRegexPattern → Type 0
Reads s none = Unit
Reads s (some pattern) = IsSafe pattern × (render pattern ≡ s)

abbrev start_anchor : Bool → Text
start_anchor start = if start then b'^' ∷ [] else []

dollar :
    (start : Bool) (a : ℕ) (plain : Text) (c : ℕ) (b : Bool)
    → (c == b'$') ≡ b
    → All (λ x. is_plain_char x ≡ true) (a ∷ plain)
    → Reads
        (start_anchor start ++ (a ∷ plain) ++ c ∷ [])
        (with_flags start (a ∷ plain) (if b then some (false, true) else none))
dollar start a plain c true h all =
    ((all, refl), ap (λ x. start_anchor start ++ (a ∷ plain) ++ x ∷ []) (sym ((==_iff c b'$').0 h)))
dollar start a plain c false h all = tt

wildcard :
    (start : Bool) (a : ℕ) (plain : Text) (c d : ℕ) (b : Bool)
    → ((c == b'.') && (d == b'*')) ≡ b
    → All (λ x. is_plain_char x ≡ true) (a ∷ plain)
    → Reads
        (start_anchor start ++ (a ∷ plain) ++ c ∷ d ∷ [])
        (with_flags start (a ∷ plain) (if b then some (true, false) else none))
wildcard start a plain c d true h all =
    let (p, q) = (and-eq-true_iff (c == b'.') (d == b'*')).0 h in
    (
      (all, refl),
      ap₂ (λ x y. start_anchor start ++ (a ∷ plain) ++ x ∷ y ∷ []) (sym ((==_iff c b'.').0 p))
          (sym ((==_iff d b'*').0 q)),
    )
wildcard start a plain c d false h all = tt

parse_body-Reads :
    (start : Bool) (plain rest : Text)
    → All (λ x. is_plain_char x ≡ true) plain
    → Reads (start_anchor start ++ plain ++ rest) (parse_body start (plain, rest))
parse_body-Reads start [] rest all = tt
parse_body-Reads start (a ∷ plain) [] all = ((all, refl), refl)
parse_body-Reads start (a ∷ plain) (c ∷ []) all = dollar start a plain c _ refl all
parse_body-Reads start (a ∷ plain) (c ∷ d ∷ []) all = wildcard start a plain c d _ refl all
parse_body-Reads start (a ∷ plain) (c ∷ d ∷ e ∷ s) all = tt

after_anchor :
    (start : Bool) (s : Text) → Reads (start_anchor start ++ s) (parse_body start (take_plain s))
after_anchor start s =
    let (p, all) = take_plain_lem s in
    subst (λ x. Reads x (parse_body start (take_plain s)))
      (append_assoc (start_anchor start) _ _ ∙ ap (λ x. start_anchor start ++ x) p)
      (parse_body-Reads start (take_plain s).0 (take_plain s).1 all)

by_start :
    (c : ℕ) (s : Text) (b : Bool)
    → (c == b'^') ≡ b
    → Reads
        (c ∷ s)
        (if b then parse_body true (take_plain s) else parse_body false (take_plain (c ∷ s)))
by_start c s true h =
    subst (λ x. Reads (x ∷ s) (parse_body true (take_plain s))) (sym ((==_iff c b'^').0 h))
      (after_anchor true s)
by_start c s false h = after_anchor false (c ∷ s)

parse-Reads : (s : Text) → Reads s (parse_safe_regex_pattern s)
unfolding parse_safe_regex_pattern
parse-Reads [] = after_anchor false []
parse-Reads (c ∷ s) = by_start c s (c == b'^') refl

-- No plain character stands at the head.
abbrev StopsPlain : Text → Type 0
StopsPlain [] = Unit
StopsPlain (c ∷ s) = is_plain_char c ≡ false

take_plain-append :
    (plain rest : Text)
    → All (λ x. is_plain_char x ≡ true) plain
    → StopsPlain rest
    → take_plain (plain ++ rest) ≡ (plain, rest)
unfolding take_plain
take_plain-append [] [] all stop = refl
take_plain-append [] (c ∷ s) all stop = rw stop refl
take_plain-append (a ∷ plain) rest (h, all) stop =
    rw h (ap (λ x. (a ∷ x.0, x.1)) (take_plain-append plain rest all stop))

plain_not_anchor : (a : ℕ) → is_plain_char a ≡ true → (a == b'^') ≡ false
plain_not_anchor a h = elim (Bool-cases (a == b'^')) [
  | inl k ↦ cc (subst (λ x. is_plain_char x ≡ true) ((==_iff a b'^').0 k) h)
  | inr k ↦ k
]

parse_literal :
    (start : Bool) (a : ℕ) (plain t : Text)
    → All (λ x. is_plain_char x ≡ true) (a ∷ plain)
    → StopsPlain t
    → parse_safe_regex_pattern (start_anchor start ++ (a ∷ plain) ++ t)
      ≡ with_flags start (a ∷ plain) (tail_flags t)
unfolding parse_safe_regex_pattern
parse_literal true a plain t all stop =
    ap (parse_body true) (take_plain-append (a ∷ plain) t all stop)
parse_literal false a plain t all stop =
    rw (plain_not_anchor a all.0) (ap (parse_body false) (take_plain-append (a ∷ plain) t all stop))

abbrev made : Text → Bool → Bool → Bool → SafeRegexPattern
made s start end wild = record {
  literal = s;
  anchored_start = start;
  anchored_end = end;
  trailing_wildcard = wild;
}

parse-made :
    (s : Text) (start end wild : Bool)
    → IsSafe (made s start end wild)
    → parse_safe_regex_pattern (render (made s start end wild)) ≡ some (made s start end wild)
parse-made [] start end wild (h, g) = absurd h
parse-made (a ∷ s) start false false (h, g) = parse_literal start a s [] h tt
parse-made (a ∷ s) start true false (h, g) = parse_literal start a s (b'$' ∷ []) h refl
parse-made (a ∷ s) start false true (h, g) = parse_literal start a s (b'.' ∷ b'*' ∷ []) h refl
parse-made (a ∷ s) start true true (h, g) = cc

-- A text is read as a pattern exactly when the pattern is safe (its literal is a non-empty run of
-- plain characters, and no wildcard stands before an end anchor) and is written as that text.
pub parse_safe_regex_pattern_iff :
    (s : Text) (pattern : SafeRegexPattern)
    → (parse_safe_regex_pattern s ≡ some pattern) ↔ (IsSafe pattern × (render pattern ≡ s))
parse_safe_regex_pattern_iff s pattern = (
  λ h. subst (Reads s) h (parse-Reads s),
  λ (safe, e).
      subst (λ x. parse_safe_regex_pattern x ≡ some pattern) e
        (parse-made pattern.literal pattern.anchored_start pattern.anchored_end
          pattern.trailing_wildcard safe),
)
