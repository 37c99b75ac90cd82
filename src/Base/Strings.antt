-- ===== src/Base/Strings.antt =====
-- JavaScript strings: sequences of UTF-16 code units, with the string methods the adapters call.
use Prim.Native.Nat.{ℕ, ◌+◌, ◌-◌, ◌/◌, ◌%◌}
use Prim.Native.Char.{code}
use Prim.Native.String.{String}
use mathlib.Core.Path.{◌≡◌, refl, ap₂}
use mathlib.Core.Logic.{◌↔◌}
use mathlib.Core.Bool.{Bool, true, false, ◌&&◌, ◌||◌}
use mathlib.Core.List.{List, [], ◌∷◌, ◌++◌}
use native.Mathlib.Omega.{arith}
use query_plan_adapters.Base.Tests.{ltb, leb, ◌==◌, if◌then◌else◌}
use query_plan_adapters.Base.Lists.{length, drop}

abbrev pub Text : Type 0
Text = List ℕ

-- The code units of one code point.
abbrev pub units : ℕ → Text
units c =
    if ltb c 0x1_0000
    then c ∷ []
    else (0xd800 + (c - 0x1_0000) / 0x400) ∷ (0xdc00 + (c - 0x1_0000) % 0x400) ∷ []

-- A literal.
abbrev pub text : String → Text
text String.[] = []
text (String.◌∷◌ c s) = units (code c) ++ text s

-- `a === b`
unfoldable pub text_eq : Text → Text → Bool
text_eq [] [] = true
text_eq (a ∷ s) (b ∷ t) = (a == b) && text_eq s t
text_eq _ _ = false

pub text_eq_sound : (s t : Text) → text_eq s t ≡ true → s ≡ t
unfolding text_eq
text_eq_sound [] [] h = refl
text_eq_sound (a ∷ s) (b ∷ t) h = ap₂ ◌∷◌ (ground arith) (text_eq_sound s t (ground arith))
text_eq_sound [] (b ∷ t) h = cc
text_eq_sound (a ∷ s) [] h = cc

pub text_eq_self : (s : Text) → text_eq s s ≡ true
unfolding text_eq
text_eq_self [] = refl
text_eq_self (a ∷ s) = ground (arith, text_eq_self s)

pub text_eq_iff : (s t : Text) → (text_eq s t ≡ true) ↔ (s ≡ t)
text_eq_iff s t = (text_eq_sound s t, λ e. rw e (text_eq_self t))

-- `s.startsWith(p)`
unfoldable pub starts_with : Text → Text → Bool
starts_with s [] = true
starts_with [] (b ∷ p) = false
starts_with (a ∷ s) (b ∷ p) = (a == b) && starts_with s p

-- `s.endsWith(p)`: nothing of `p` is compared where it is the longer one.
unfoldable pub ends_with : Text → Text → Bool
ends_with s p = leb (length p) (length s) && text_eq (drop (length s - length p) s) p

-- `s.includes(p)`
unfoldable pub includes : Text → Text → Bool
unfolding starts_with
includes [] p = starts_with [] p
includes (a ∷ s) p = starts_with (a ∷ s) p || includes s p
