-- ===== src/Common/Decimal.antt =====
-- Numbers as text: strconv.FormatInt, FormatUint and AppendInt in a base up to 16, and ParseInt in
-- base 10 for 64 bits.
use sukko.Common.Int.{ℤ, pos, negsuc}
use sukko.Common.Text.{Text}
use sukko.Common.Tests.{ltb, leb, if◌then◌else◌}
use sukko.Common.Keys.{◌==◌, nat_eq}
use sukko.Common.Lists.{All}
use Prim.Native.Nat.{ℕ, zero, suc, ◌+◌, ◌-◌, ◌*◌, ◌/◌, ◌%◌, ◌^◌, ◌≤◌, ◌<◌}
use mathlib.Core.Path.{◌≡◌, refl, sym, ap, ◌∙◌}
use mathlib.Core.Logic.{◌≢◌}
use mathlib.Core.Bool.{Bool, true, ◌&&◌}
use mathlib.Core.Option.{Option, none, some}
use mathlib.Core.List.{[], ◌∷◌}
use native.Mathlib.Omega.{arith}
use native.Mathlib.Decide.{dec_lt}

unfoldable pub digit_char : ℕ → ℕ
digit_char d = if ltb d 10 then b'0' + d else b'a' + (d - 10)

-- The digits of a number, the last one in front of `tail`. The fuel is above the number.
unfoldable pub format_onto : ℕ → ℕ → ℕ → Text → Text
unfolding digit_char
format_onto base zero n tail = tail
format_onto base (suc fuel) n tail =
    let rest = format_onto base fuel (n / base) (digit_char (n % base) ∷ tail) in
    if ltb n base then digit_char n ∷ tail else rest

unfoldable pub format_uint : ℕ → ℕ → Text
unfolding format_onto
format_uint base n = format_onto base (suc n) n []

unfoldable pub format_int : ℤ → Text
unfolding format_uint
format_int (pos n) = format_uint 10 n
format_int (negsuc n) = b'-' ∷ format_uint 10 (suc n)

unfoldable pub is_digit : ℕ → Bool
is_digit c = leb b'0' c && leb c b'9'

-- The value of a text of decimal digits behind those read so far.
unfoldable pub parse_digits : ℕ → Text → Option ℕ
unfolding is_digit
parse_digits acc [] = some acc
parse_digits acc (c ∷ s) =
    let rest = parse_digits (acc * 10 + (c - b'0')) s in if is_digit c then rest else none

unfoldable pub parse_unsigned : Text → Option ℕ
unfolding parse_digits
parse_unsigned [] = none
parse_unsigned (c ∷ s) = parse_digits 0 (c ∷ s)

-- Out of range is an error for either sign.
abbrev pub in_range : ℤ → Option ℤ
in_range (pos n) = if ltb n (2 ^ 63) then some (pos n) else none
in_range (negsuc n) = if ltb n (2 ^ 63) then some (negsuc n) else none

abbrev pub signed : ℕ → ℤ
signed zero = pos 0
signed (suc n) = negsuc n

abbrev pub range_pos : Option ℕ → Option ℤ
range_pos none = none
range_pos (some n) = in_range (pos n)

abbrev pub range_neg : Option ℕ → Option ℤ
range_neg none = none
range_neg (some n) = in_range (signed n)

-- strconv.ParseInt(s, 10, 64), the error as `none`.
unfoldable pub parse_int : Text → Option ℤ
unfolding parse_unsigned
parse_int [] = none
parse_int (c ∷ s) =
    if c == b'-'
    then range_neg (parse_unsigned s)
    else if c == b'+'
    then range_pos (parse_unsigned s)
    else range_pos (parse_unsigned (c ∷ s))

digit_char_decimal : (d : ℕ) → d < 10 → (is_digit (digit_char d) ≡ true) × (digit_char d - b'0' ≡ d)
unfolding digit_char is_digit
digit_char_decimal d h = ground arith

digit_char_digit : (d : ℕ) → d < 10 → (b'0' ≤ digit_char d) × (digit_char d ≤ b'9')
unfolding digit_char
digit_char_digit d h = ground arith

parse_digit :
    (acc d : ℕ) (tail : Text)
    → d < 10
    → parse_digits acc (digit_char d ∷ tail) ≡ parse_digits (acc * 10 + d) tail
unfolding parse_digits
parse_digit acc d tail h =
    let (digit, value) = digit_char_decimal d h in
    ground (arith, digit, value, ap (λ v. parse_digits (acc * 10 + v) tail) value)

format_onto-last :
    (fuel n : ℕ) (tail : Text) → n < 10 → format_onto 10 (suc fuel) n tail ≡ digit_char n ∷ tail
unfolding format_onto
format_onto-last fuel n tail h = ground arith

format_onto-more :
    (fuel n : ℕ) (tail : Text)
    → 10 ≤ n
    → format_onto 10 (suc fuel) n tail ≡ format_onto 10 fuel (n / 10) (digit_char (n % 10) ∷ tail)
unfolding format_onto
format_onto-more fuel n tail h = ground arith

-- Reading back what was printed continues with the digits behind it.
parse-format_onto :
    (fuel n : ℕ) (tail : Text)
    → n < fuel
    → parse_digits 0 (format_onto 10 fuel n tail) ≡ parse_digits n tail
parse-format_onto zero n tail h = absurd (omega arith)
parse-format_onto (suc fuel) n tail h = elim (dec_lt n 10) [
  | yes small ↦
      ap (parse_digits 0) (format_onto-last fuel n tail small)
      ∙ parse_digit 0 n tail small
      ∙ ap (λ v. parse_digits v tail) (omega arith)
  | no large ↦
      ap (parse_digits 0) (format_onto-more fuel n tail (omega arith))
      ∙ parse-format_onto fuel (n / 10) (digit_char (n % 10) ∷ tail) (omega arith)
      ∙ parse_digit (n / 10) (n % 10) tail (omega arith)
      ∙ ap (λ v. parse_digits v tail) (omega arith)
]

abbrev pub IsDigits : Text → Type 0
IsDigits s = All (λ c. (b'0' ≤ c) × (c ≤ b'9')) s

format_onto-IsDigits :
    (fuel n : ℕ) (tail : Text) → n < fuel → IsDigits tail → IsDigits (format_onto 10 fuel n tail)
format_onto-IsDigits zero n tail h t = absurd (omega arith)
format_onto-IsDigits (suc fuel) n tail h t = elim (dec_lt n 10) [
  | yes small ↦ rw (format_onto-last fuel n tail small) (digit_char_digit n small, t)
  | no large ↦ rw (format_onto-more fuel n tail (omega arith)) (
      format_onto-IsDigits fuel (n / 10) (digit_char (n % 10) ∷ tail) (omega arith)
        (digit_char_digit (n % 10) (omega arith), t))
]

pub format_uint-IsDigits : (n : ℕ) → IsDigits (format_uint 10 n)
unfolding format_uint
format_uint-IsDigits n = format_onto-IsDigits (suc n) n [] (omega arith) tt

format_onto-ne-nil : (fuel n : ℕ) (tail : Text) → n < fuel → format_onto 10 fuel n tail ≢ []
format_onto-ne-nil zero n tail h e = absurd (omega arith)
format_onto-ne-nil (suc fuel) n tail h e = elim (dec_lt n 10) [
  | yes small ↦ let clash = sym (format_onto-last fuel n tail small) ∙ e in cc
  | no large ↦
      format_onto-ne-nil fuel (n / 10) (digit_char (n % 10) ∷ tail) (omega arith)
        (sym (format_onto-more fuel n tail (omega arith)) ∙ e)
]

pub format_uint-ne-nil : (n : ℕ) → format_uint 10 n ≢ []
unfolding format_uint
format_uint-ne-nil n = format_onto-ne-nil (suc n) n [] (omega arith)

parse_int_digits :
    (s : Text) (n : ℕ)
    → IsDigits s
    → s ≢ []
    → parse_digits 0 s ≡ some n
    → n < 2 ^ 63
    → parse_int s ≡ some (pos n)
unfolding parse_int
parse_int_digits [] n d some_digit p h = absurd (some_digit refl)
parse_int_digits (c ∷ s) n d some_digit p h = ground (arith, d.0.0, d.0.1)

format_uint_value : (n : ℕ) → parse_digits 0 (format_uint 10 n) ≡ some n
unfolding format_uint parse_digits
format_uint_value n = parse-format_onto (suc n) n [] (omega arith)

-- A printed number below 2^63 is read back.
pub parse-format : (n : ℕ) → n < 2 ^ 63 → parse_int (format_uint 10 n) ≡ some (pos n)
parse-format n h =
    parse_int_digits (format_uint 10 n) n (format_uint-IsDigits n) (format_uint-ne-nil n)
      (format_uint_value n) h
