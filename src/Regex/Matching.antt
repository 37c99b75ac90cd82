-- ===== src/Regex/Matching.antt =====
-- convex/src/regex.ts, `matchesSafeRegexPattern`: what a pattern matches.
use mathlib.Core.Bool.{and-eq-true_iff}
use mathlib.Core.List.{append-nil}
use query_plan_adapters.Base.{
  ◌-◌, ◌≡◌, refl, sym, ap, ap₂, subst, ◌∙◌, ◌↔◌, inl, inr, Bool, true, false, [], ◌∷◌, ◌++◌,
  Bool-cases, Text, arith, text_eq_iff, starts_with, ends_with, includes, length, drop, take,
  take-append-drop, length-append, leb, le→leb,
}
use query_plan_adapters.Regex.{SafeRegexPattern, matches_safe_regex_pattern}

starts_with_split : (s p : Text) → starts_with s p ≡ true → (rest : Text) × (s ≡ p ++ rest)
unfolding starts_with
starts_with_split s [] h = (s, refl)
starts_with_split [] (b ∷ p) h = cc
starts_with_split (a ∷ s) (b ∷ p) h =
    let (rest, e) = starts_with_split s p (ground arith) in (rest, ap₂ ◌∷◌ (ground arith) e)

starts_with-append : (p rest : Text) → starts_with (p ++ rest) p ≡ true
unfolding starts_with
starts_with-append [] [] = refl
starts_with-append [] (a ∷ rest) = refl
starts_with-append (b ∷ p) rest = ground (arith, starts_with-append p rest)

starts_with_iff : (s p : Text) → (starts_with s p ≡ true) ↔ ((rest : Text) × (s ≡ p ++ rest))
starts_with_iff s p = (starts_with_split s p, λ (rest, e). rw e (starts_with-append p rest))

includes_split :
    (s p : Text) → includes s p ≡ true → (before after : Text) × (s ≡ before ++ p ++ after)
unfolding includes
includes_split [] p h = let (rest, e) = starts_with_split [] p h in ([], rest, e)
includes_split (a ∷ s) p h = elim (Bool-cases (starts_with (a ∷ s) p)) [
  | inl k ↦ let (rest, e) = starts_with_split (a ∷ s) p k in ([], rest, e)
  | inr k ↦
      let (before, after, e) = includes_split s p (ground arith) in
      (a ∷ before, after, ap (λ x. a ∷ x) e)
]

includes_at_start : (s p : Text) → starts_with s p ≡ true → includes s p ≡ true
unfolding includes
includes_at_start [] p h = h
includes_at_start (a ∷ s) p h = ground arith

includes-append : (before p after : Text) → includes (before ++ p ++ after) p ≡ true
unfolding includes
includes-append [] p after = includes_at_start (p ++ after) p (starts_with-append p after)
includes-append (a ∷ before) p after = ground (arith, includes-append before p after)

drop-append : (before p : Text) → drop (length before) (before ++ p) ≡ p
drop-append [] p = refl
drop-append (a ∷ before) p = drop-append before p

ends_with_split : (s p : Text) → ends_with s p ≡ true → (before : Text) × (s ≡ before ++ p)
unfolding ends_with
ends_with_split s p h =
    let (short, same) = (and-eq-true_iff (leb (length p) (length s)) _).0 h in
    let n = length s - length p in
    (take n s, sym (take-append-drop n s) ∙ ap (λ x. take n s ++ x) ((text_eq_iff _ p).0 same))

ends_with-append : (before p : Text) → ends_with (before ++ p) p ≡ true
unfolding ends_with
ends_with-append before p = (and-eq-true_iff _ _).1 (
  le→leb _ _ (omega (arith, length-append before p)),
  (text_eq_iff _ p).1 (
      ap (λ n. drop n (before ++ p)) (omega (arith, length-append before p))
      ∙ drop-append before p),
)

-- What RE2 answers: the literal occurs, at the start and at the end where the pattern is anchored.
abbrev pub Occurs : SafeRegexPattern → Text → Type 0
Occurs pattern s =
    (before after : Text) × (s ≡ before ++ pattern.literal ++ after)
    × (pattern.anchored_start ≡ true → before ≡ [])
    × (pattern.anchored_end ≡ true → after ≡ [])

by_anchors :
    (receiver : Text) (pattern : SafeRegexPattern) (start end : Bool)
    → pattern.anchored_start ≡ start
    → pattern.anchored_end ≡ end
    → (matches_safe_regex_pattern receiver pattern ≡ true) ↔ Occurs pattern receiver
unfolding matches_safe_regex_pattern
by_anchors receiver pattern true true p q =
    rw (p, q)
      (
        λ h. (
          [],
          [],
          (text_eq_iff receiver pattern.literal).0 h ∙ sym (append-nil pattern.literal),
          λ e. refl,
          λ e. refl,
        ),
        λ (before, after, e, f, g). (text_eq_iff receiver pattern.literal).1 (
            e
            ∙ ap₂ (λ x y. x ++ pattern.literal ++ y) (f refl) (g refl)
            ∙ append-nil pattern.literal),
      )
by_anchors receiver pattern true false p q =
    rw (p, q)
      (
        λ h.
            let (rest, e) = starts_with_split receiver pattern.literal h in
            ([], rest, e, λ e. refl, λ e. cc),
        λ (before, after, e, f, g).
            (starts_with_iff receiver pattern.literal).1
              (after, e ∙ ap (λ x. x ++ pattern.literal ++ after) (f refl)),
      )
by_anchors receiver pattern false true p q =
    rw (p, q)
      (
        λ h.
            let (before, e) = ends_with_split receiver pattern.literal h in
            (before, [], e ∙ sym (append-nil (before ++ pattern.literal)), λ e. cc, λ e. refl),
        λ (before, after, e, f, g).
            subst (λ x. ends_with x pattern.literal ≡ true)
              (sym (
                e
                ∙ ap (λ x. before ++ pattern.literal ++ x) (g refl)
                ∙ append-nil (before ++ pattern.literal)))
              (ends_with-append before pattern.literal),
      )
by_anchors receiver pattern false false p q =
    rw (p, q)
      (
        λ h.
            let (before, after, e) = includes_split receiver pattern.literal h in
            (before, after, e, λ e. cc, λ e. cc),
        λ (before, after, e, f, g). rw e (includes-append before pattern.literal after),
      )

-- A text matches a pattern exactly when the pattern's literal occurs in it, with nothing before it
-- under a start anchor and nothing behind it under an end anchor.
pub matches_safe_regex_pattern_iff :
    (receiver : Text) (pattern : SafeRegexPattern)
    → (matches_safe_regex_pattern receiver pattern ≡ true) ↔ Occurs pattern receiver
matches_safe_regex_pattern_iff receiver pattern =
    by_anchors receiver pattern pattern.anchored_start pattern.anchored_end refl refl
