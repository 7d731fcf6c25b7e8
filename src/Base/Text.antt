-- ===== src/Base/Text.antt =====
-- Text as its UTF-16 code units, where the code takes it apart; the default order of `sort`.
use Prim.Native.Nat.{ℕ, zero, suc, ◌+◌, ◌-◌, ◌*◌, ◌/◌, ◌%◌, ◌<◌}
use Prim.Native.Char.{code}
use Prim.Native.String.{String}
use mathlib.Core.Path.{◌≡◌, refl, ap, sym, ◌∙◌}
use mathlib.Core.Logic.{inl, inr}
use mathlib.Core.Bool.{Bool, true, false, ◌||◌, ◌&&◌}
use mathlib.Core.List.{List, [], ◌∷◌, ◌++◌}
use native.Mathlib.Omega.{arith}
use cosmic_swingset.Base.Tests.{ltb, nat_beq, if◌then◌else◌, Bool-cases}
use cosmic_swingset.Base.Lists.{All, All-append, any}

abbrev pub Text : Type 0
Text = List ℕ

-- A literal of ASCII characters.
abbrev pub codes : String → Text
codes String.[] = []
codes (String.◌∷◌ c s) = code c ∷ codes s

-- What `.` of a regular expression does not match.
abbrev pub is_line_end : ℕ → Bool
is_line_end c = nat_beq c 10 || nat_beq c 13 || nat_beq c 8232 || nat_beq c 8233

-- Code unit by code unit, a prefix first.
unfoldable pub text_le : Text → Text → Bool
text_le [] t = true
text_le (a ∷ s) [] = false
text_le (a ∷ s) (b ∷ t) = ltb a b || (nat_beq a b && text_le s t)

-- The digit of a number below 16, as `toString(16)` writes it.
abbrev pub hex_digit : ℕ → ℕ
hex_digit d = if ltb d 10 then d + 48 else d + 87

-- The digits of `n.toString(b)`, for a base of at most 16 and with enough fuel.
unfoldable pub digits_fuel : ℕ → ℕ → ℕ → Text
digits_fuel b zero n = []
digits_fuel b (suc fuel) n =
    let high = digits_fuel b fuel (n / b) in
    if ltb n b then hex_digit n ∷ [] else high ++ hex_digit (n % b) ∷ []

-- `i.toString(16)`: a number has at most as many digits as it has units, and one more
unfoldable pub to_hex : ℕ → Text
unfolding digits_fuel
to_hex n = digits_fuel 16 (n + 1) n

-- `${n}`
unfoldable pub to_decimal : ℕ → Text
unfolding digits_fuel
to_decimal n = digits_fuel 10 (n + 1) n

abbrev digit_value : ℕ → ℕ
digit_value c = if ltb c 58 then c - 48 else c - 87

abbrev value_from : ℕ → ℕ → Text → ℕ
value_from b acc [] = acc
value_from b acc (c ∷ cs) = value_from b (acc * b + digit_value c) cs

value_from-snoc :
    (b acc c : ℕ) (cs : Text)
    → value_from b acc (cs ++ c ∷ []) ≡ value_from b acc cs * b + digit_value c
value_from-snoc b acc c [] = refl
value_from-snoc b acc c (d ∷ cs) = value_from-snoc b (acc * b + digit_value d) c cs

digit_value-hex_digit : (d : ℕ) → d < 16 → digit_value (hex_digit d) ≡ d
digit_value-hex_digit d h = ground arith

-- Reading the digits gives the number back.
value-hex : (fuel n : ℕ) → n < fuel → value_from 16 0 (digits_fuel 16 fuel n) ≡ n
unfolding digits_fuel
value-hex zero n h = absurd (omega arith)
value-hex (suc fuel) n h = elim (Bool-cases (ltb n 16)) [
  | inl small ↦ ground (arith, digit_value-hex_digit n)
  | inr large ↦ ground (
    arith,
    value_from-snoc 16 0 (hex_digit (n % 16)) (digits_fuel 16 fuel (n / 16)),
    digit_value-hex_digit (n % 16),
    value-hex fuel (n / 16),
  )
]

pub to_hex-injective : (m n : ℕ) → to_hex m ≡ to_hex n → m ≡ n
unfolding to_hex
to_hex-injective m n e =
    sym (value-hex (m + 1) m (omega arith))
    ∙ ap (value_from 16 0) e
    ∙ value-hex (n + 1) n (omega arith)

-- A digit is none of the signs below the digits, such as `#`.
digits-plain : (fuel n : ℕ) → All (λ c. 47 < c) (digits_fuel 16 fuel n)
unfolding digits_fuel
digits-plain zero n = tt
digits-plain (suc fuel) n = elim (Bool-cases (ltb n 16)) [
  | inl small ↦ ground arith
  | inr large ↦
      let last : All (λ c. 47 < c) (hex_digit (n % 16) ∷ []) = ground arith in
      rw large (
        All-append (λ c. 47 < c) (digits_fuel 16 fuel (n / 16)) (hex_digit (n % 16) ∷ [])
          (digits-plain fuel (n / 16)) last)
]

pub to_hex-plain : (n : ℕ) → All (λ c. 47 < c) (to_hex n)
unfolding to_hex
to_hex-plain n = digits-plain (n + 1) n

place_text : Text → List Text → List Text
place_text s [] = s ∷ []
place_text s (t ∷ ts) = if text_le s t then s ∷ t ∷ ts else t ∷ place_text s ts

-- `sort()` with no comparison
unfoldable pub sort_texts : List Text → List Text
unfolding place_text text_le
sort_texts [] = []
sort_texts (s ∷ ss) = place_text s (sort_texts ss)

any-place_text :
    (p : Text → Bool) (s : Text) (ts : List Text) → any p (place_text s ts) ≡ (p s || any p ts)
unfolding place_text
any-place_text p s [] = refl
any-place_text p s (t ∷ ts) = ground (arith, any-place_text p s ts)

pub any-sort_texts : (p : Text → Bool) (ts : List Text) → any p (sort_texts ts) ≡ any p ts
unfolding sort_texts
any-sort_texts p [] = refl
any-sort_texts p (t ∷ ts) = ground (arith, any-place_text p t (sort_texts ts), any-sort_texts p ts)
