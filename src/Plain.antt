-- ===== src/Plain.antt =====
-- The values that a JSON document or a plan's literal holds: no `undefined`, no error, no bigint, no
-- NaN, no infinity and no negative zero (JSON has none of them).
use query_plan_adapters.Number.{is_nan, Number, nan, inf, fin}
use query_plan_adapters.Base.{
  zero, suc, ◌≡◌, refl, ap, ap₂, ◌↔◌, true, false, text_eq_sound, text_eq_self, arith, sym, subst,
}
use mathlib.Core.Bool.{and-eq-true_iff}
use query_plan_adapters.Value.{
  Value, Items, nil, cons, Entries, end, entry, evaluation_error, null, bool, num, str, arr,
  record_of, is_error,
}
use query_plan_adapters.Cel.Equality.{values_equal, items_equal, numeric_equal}

abbrev pub IsOrdinary : Number → Type 0
IsOrdinary (fin false k) = Unit
IsOrdinary (fin true zero) = ⊥
IsOrdinary (fin true (suc k)) = Unit
IsOrdinary _ = ⊥

abbrev mutual
  pub IsPlain : Value → Type 0
  IsPlain null = Unit
  IsPlain (bool b) = Unit
  IsPlain (num x) = IsOrdinary x
  IsPlain (str s) = Unit
  IsPlain (arr vs) = ArePlain vs
  IsPlain (record_of es) = HasPlainEntries es
  IsPlain _ = ⊥

  pub ArePlain : Items → Type 0
  ArePlain nil = Unit
  ArePlain (cons v vs) = IsPlain v × ArePlain vs

  pub HasPlainEntries : Entries → Type 0
  HasPlainEntries end = Unit
  HasPlainEntries (entry k v es) = IsPlain v × HasPlainEntries es

-- A plain value with no map in it.
abbrev mutual
  pub IsMapFree : Value → Type 0
  IsMapFree null = Unit
  IsMapFree (bool b) = Unit
  IsMapFree (num x) = IsOrdinary x
  IsMapFree (str s) = Unit
  IsMapFree (arr vs) = AreMapFree vs
  IsMapFree _ = ⊥

  pub AreMapFree : Items → Type 0
  AreMapFree nil = Unit
  AreMapFree (cons v vs) = IsMapFree v × AreMapFree vs

pub IsPlain-not_error : (v : Value) → IsPlain v → is_error v ≡ false
IsPlain-not_error null h = refl
IsPlain-not_error evaluation_error h = absurd h
IsPlain-not_error _ h = refl

numeric_equal_sound :
    (x y : Number) → IsOrdinary x → IsOrdinary y → numeric_equal x y ≡ true → x ≡ y
unfolding numeric_equal
numeric_equal_sound (fin false j) (fin false k) h g e = ground arith
numeric_equal_sound (fin true (suc j)) (fin false k) h g e = ground arith
numeric_equal_sound (fin false j) (fin true (suc k)) h g e = ground arith
numeric_equal_sound (fin true (suc j)) (fin true (suc k)) h g e = ground arith
numeric_equal_sound (fin true zero) y h g e = absurd h
numeric_equal_sound (fin s j) (fin true zero) h g e = absurd g
numeric_equal_sound nan y h g e = absurd h
numeric_equal_sound (inf s) y h g e = absurd h
numeric_equal_sound (fin s j) nan h g e = absurd g
numeric_equal_sound (fin s j) (inf t) h g e = absurd g

numeric_equal_self : (x : Number) → IsOrdinary x → numeric_equal x x ≡ true
unfolding numeric_equal
numeric_equal_self (fin false j) h = ground arith
numeric_equal_self (fin true j) h = ground arith
numeric_equal_self nan h = absurd h
numeric_equal_self (inf s) h = absurd h

mutual
  unfolding values_equal

  values_equal_sound : (v w : Value) → IsPlain v → IsMapFree w → values_equal v w ≡ true → v ≡ w
  values_equal_sound null null h g e = refl
  values_equal_sound (bool a) (bool b) h g e = ground arith
  values_equal_sound (num x) (num y) h g e = ap num (numeric_equal_sound x y h g e)
  values_equal_sound (str s) (str t) h g e = ap str (text_eq_sound s t e)
  values_equal_sound (arr vs) (arr ws) h g e = ap arr (items_equal_sound vs ws h g e)
  values_equal_sound _ _ h g e = ground arith

  items_equal_sound :
      (vs ws : Items) → ArePlain vs → AreMapFree ws → items_equal vs ws ≡ true → vs ≡ ws
  items_equal_sound nil nil h g e = refl
  items_equal_sound (cons v vs) (cons w ws) (p, ps) (q, qs) e =
      let (first, rest) = (and-eq-true_iff _ _).0 e in
      ap₂ cons (values_equal_sound v w p q first) (items_equal_sound vs ws ps qs rest)
  items_equal_sound _ _ h g e = cc

mutual
  unfolding values_equal

  values_equal_self : (v : Value) → IsMapFree v → values_equal v v ≡ true
  values_equal_self null h = refl
  values_equal_self (bool true) h = refl
  values_equal_self (bool false) h = refl
  values_equal_self (num x) h = numeric_equal_self x h
  values_equal_self (str s) h = text_eq_self s
  values_equal_self (arr vs) h = items_equal_self vs h
  values_equal_self _ h = absurd h

  items_equal_self : (vs : Items) → AreMapFree vs → items_equal vs vs ≡ true
  items_equal_self nil h = refl
  items_equal_self (cons v vs) (p, ps) =
      ground (arith, values_equal_self v p, items_equal_self vs ps)

mutual
  unfolding values_equal

  values_equal_sound_left :
      (v w : Value) → IsMapFree v → IsPlain w → values_equal v w ≡ true → v ≡ w
  values_equal_sound_left null null h g e = refl
  values_equal_sound_left (bool a) (bool b) h g e = ground arith
  values_equal_sound_left (num x) (num y) h g e = ap num (numeric_equal_sound x y h g e)
  values_equal_sound_left (str s) (str t) h g e = ap str (text_eq_sound s t e)
  values_equal_sound_left (arr vs) (arr ws) h g e = ap arr (items_equal_sound_left vs ws h g e)
  values_equal_sound_left _ _ h g e = ground arith

  items_equal_sound_left :
      (vs ws : Items) → AreMapFree vs → ArePlain ws → items_equal vs ws ≡ true → vs ≡ ws
  items_equal_sound_left nil nil h g e = refl
  items_equal_sound_left (cons v vs) (cons w ws) (p, ps) (q, qs) e =
      let (first, rest) = (and-eq-true_iff _ _).0 e in
      ap₂ cons (values_equal_sound_left v w p q first) (items_equal_sound_left vs ws ps qs rest)
  items_equal_sound_left _ _ h g e = cc

-- Of a plain value and one with no map in it, `valuesEqual` decides equality.
pub values_equal_iff : (v w : Value) → IsPlain v → IsMapFree w → (values_equal v w ≡ true) ↔ (v ≡ w)
values_equal_iff v w h g = (
  values_equal_sound v w h g,
  λ e. subst (λ u. values_equal u w ≡ true) (sym e) (values_equal_self w g),
)

pub values_equal_iff_left :
    (v w : Value) → IsMapFree v → IsPlain w → (values_equal v w ≡ true) ↔ (v ≡ w)
values_equal_iff_left v w h g = (
  values_equal_sound_left v w h g,
  λ e. subst (λ u. values_equal v u ≡ true) e (values_equal_self v h),
)

pub IsOrdinary-not_nan : (x : Number) → IsOrdinary x → is_nan x ≡ false
IsOrdinary-not_nan nan h = absurd h
IsOrdinary-not_nan (inf s) h = refl
IsOrdinary-not_nan (fin s k) h = refl

mutual
  pub IsMapFree-IsPlain : (v : Value) → IsMapFree v → IsPlain v
  IsMapFree-IsPlain (arr vs) h = AreMapFree-ArePlain vs h
  IsMapFree-IsPlain null h = tt
  IsMapFree-IsPlain (bool b) h = tt
  IsMapFree-IsPlain (num x) h = h
  IsMapFree-IsPlain (str s) h = tt
  IsMapFree-IsPlain _ h = absurd h

  pub AreMapFree-ArePlain : (vs : Items) → AreMapFree vs → ArePlain vs
  AreMapFree-ArePlain nil h = tt
  AreMapFree-ArePlain (cons v vs) (p, ps) = (IsMapFree-IsPlain v p, AreMapFree-ArePlain vs ps)
