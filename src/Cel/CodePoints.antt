-- ===== src/Cel/CodePoints.antt =====
-- What `compareCodePoints` of convex/src/cel.ts computes: the lexicographic order of the code points,
-- and what follows for the four orderings of `compareValues`.
use query_plan_adapters.Base.{
  ℕ, zero, suc, ◌≤◌, ◌<◌, ◌≡◌, refl, sym, ap, ◌∙◌, ◌↔◌, List, [], ◌∷◌, ◌++◌, ltb, ◌==◌,
  if◌then◌else◌, Text, units, length, arith, All,
}
use query_plan_adapters.Cel.Order.{
  code_point_at, code_points_from, code_points, Sign, negative, zero_sign, positive, compare_from,
  compare_code_points,
}

-- The dictionary order of two lists of code points.
pub lexicographic : List ℕ → List ℕ → Sign
lexicographic [] [] = zero_sign
lexicographic [] (y ∷ ys) = negative
lexicographic (x ∷ xs) [] = positive
lexicographic (x ∷ xs) (y ∷ ys) =
    let rest = lexicographic xs ys in
    if x == y then rest else if ltb x y then negative else positive

code_point_at_rest : (a : ℕ) (s : Text) → length (code_point_at a s).1 ≤ length s
unfolding code_point_at
code_point_at_rest a [] = omega arith
code_point_at_rest a (b ∷ s) = ground arith

compare_from_lem :
    (f g : ℕ) (s t : Text)
    → length s ≤ f
    → length t ≤ g
    → compare_from f s t ≡ lexicographic (code_points_from f s) (code_points_from g t)
unfolding compare_from lexicographic code_points_from
compare_from_lem zero zero [] [] h k = refl
compare_from_lem zero (suc g) [] [] h k = refl
compare_from_lem (suc f) zero [] [] h k = refl
compare_from_lem (suc f) (suc g) [] [] h k = refl
compare_from_lem zero (suc g) [] (b ∷ t) h k = refl
compare_from_lem (suc f) (suc g) [] (b ∷ t) h k = refl
compare_from_lem f zero [] (b ∷ t) h k = absurd (omega arith)
compare_from_lem zero g (a ∷ s) t h k = absurd (omega arith)
compare_from_lem (suc f) zero (a ∷ s) [] h k = refl
compare_from_lem (suc f) (suc g) (a ∷ s) [] h k = refl
compare_from_lem (suc f) zero (a ∷ s) (b ∷ t) h k = absurd (omega arith)
compare_from_lem (suc f) (suc g) (a ∷ s) (b ∷ t) h k =
    let p = code_point_at_rest a s in
    let q = code_point_at_rest b t in
    rw
      (compare_from_lem f g (code_point_at a s).1 (code_point_at b t).1 (omega arith) (omega arith))

-- Two texts compare as their lists of code points do in the dictionary order.
pub compare_code_points-lexicographic :
    (s t : Text) → compare_code_points s t ≡ lexicographic (code_points s) (code_points t)
unfolding compare_code_points code_points
compare_code_points-lexicographic s t =
    compare_from_lem (length s) (length t) s t (omega arith) (omega arith)

abbrev pub flip : Sign → Sign
flip negative = positive
flip zero_sign = zero_sign
flip positive = negative

flip-lexicographic : (xs ys : List ℕ) → lexicographic xs ys ≡ flip (lexicographic ys xs)
unfolding lexicographic
flip-lexicographic [] [] = refl
flip-lexicographic [] (y ∷ ys) = refl
flip-lexicographic (x ∷ xs) [] = refl
flip-lexicographic (x ∷ xs) (y ∷ ys) = ground (arith, flip-lexicographic xs ys)

pub flip-compare_code_points :
    (s t : Text) → compare_code_points s t ≡ flip (compare_code_points t s)
flip-compare_code_points s t =
    compare_code_points-lexicographic s t
    ∙ (flip-lexicographic (code_points s) (code_points t)
        ∙ ap flip (sym (compare_code_points-lexicographic t s)))

lexicographic_zero : (xs ys : List ℕ) → lexicographic xs ys ≡ zero_sign → xs ≡ ys
unfolding lexicographic
lexicographic_zero [] [] h = refl
lexicographic_zero [] (y ∷ ys) h = cc
lexicographic_zero (x ∷ xs) [] h = cc
lexicographic_zero (x ∷ xs) (y ∷ ys) h = ground (arith, lexicographic_zero xs ys)

lexicographic_self : (xs : List ℕ) → lexicographic xs xs ≡ zero_sign
unfolding lexicographic
lexicographic_self [] = refl
lexicographic_self (x ∷ xs) = ground (arith, lexicographic_self xs)

abbrev IsUnit : ℕ → Type 0
IsUnit c = c < 0x1_0000

-- A sequence of UTF-16 code units.
abbrev pub IsUtf16 : Text → Type 0
IsUtf16 s = All IsUnit s

unfoldable pub encode : List ℕ → Text
encode [] = []
encode (c ∷ cs) = units c ++ encode cs

units-code_point_at :
    (a : ℕ) (s : Text)
    → IsUtf16 (a ∷ s)
    → (units (code_point_at a s).0 ++ (code_point_at a s).1 ≡ a ∷ s) × IsUtf16 (code_point_at a s).1
unfolding code_point_at
units-code_point_at a [] h = ground arith
units-code_point_at a (b ∷ s) h = ground arith

encode-code_points_from :
    (fuel : ℕ) (s : Text) → length s ≤ fuel → IsUtf16 s → encode (code_points_from fuel s) ≡ s
unfolding encode code_points_from
encode-code_points_from zero [] h v = refl
encode-code_points_from zero (a ∷ s) h v = absurd (omega arith)
encode-code_points_from (suc fuel) [] h v = refl
encode-code_points_from (suc fuel) (a ∷ s) h v =
    let (e, rest) = units-code_point_at a s v in
    let p = code_point_at_rest a s in
    rw (encode-code_points_from fuel (code_point_at a s).1 (omega arith) rest) e

pub encode-code_points : (s : Text) → IsUtf16 s → encode (code_points s) ≡ s
unfolding code_points
encode-code_points s v = encode-code_points_from (length s) s (omega arith) v

-- Of two sequences of code units, only equal ones compare as equal.
pub compare_code_points-eq-zero_iff :
    (s t : Text) → IsUtf16 s → IsUtf16 t → (compare_code_points s t ≡ zero_sign) ↔ (s ≡ t)
compare_code_points-eq-zero_iff s t v w = (
  λ h.
      let e = lexicographic_zero _ _ (sym (compare_code_points-lexicographic s t) ∙ h) in
      sym (encode-code_points s v) ∙ (ap encode e ∙ encode-code_points t w),
  λ e. rw e (compare_code_points-lexicographic t t ∙ lexicographic_self (code_points t)),
)
