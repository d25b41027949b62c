-- ===== src/Base/Number.antt =====
-- Go's strconv on base ten: ParseInt for 64 bits, which is Atoi, and Itoa.
use simplecontainerregistry.Base.{
  ℕ, ◌+◌, ◌-◌, ◌*◌, ◌^◌, ◌/◌, ◌%◌, suc, zero, Bytes, Bool, ◌&&◌, [], ◌∷◌, Option, none, some, leb,
  ltb, is_nil, all, if◌then◌else◌, ◌==◌,
}
use simplecontainerregistry.Base.Int.{ℤ, pos, negsuc}

abbrev pub is_digit : ℕ → Bool
is_digit c = leb b'0' c && leb c b'9'

unfoldable pub digits_value : ℕ → Bytes → ℕ
digits_value value [] = value
digits_value value (c ∷ s) = digits_value (10 * value + (c - b'0')) s

-- The digits of a number; `none` for no digits, or for another byte.
unfoldable pub parse_digits : Bytes → Option ℕ
unfolding digits_value
parse_digits s = if is_nil s then none else if all is_digit s then some (digits_value 0 s) else none

abbrev pub in_range_positive : Option ℕ → Option ℤ
in_range_positive none = none
in_range_positive (some n) = if ltb n (2 ^ 63) then some (pos n) else none

abbrev pub minus : ℕ → ℤ
minus n = if n == 0 then pos 0 else negsuc (n - 1)

abbrev pub in_range_negative : Option ℕ → Option ℤ
in_range_negative none = none
in_range_negative (some n) = if leb n (2 ^ 63) then some (minus n) else none

-- strconv.ParseInt(s, 10, 64): a sign, then digits, of a number in the range of int64.
unfoldable pub parse_int : Bytes → Option ℤ
unfolding parse_digits
parse_int [] = none
parse_int (c ∷ s) =
    if c == b'+'
    then in_range_positive (parse_digits s)
    else if c == b'-'
    then in_range_negative (parse_digits s)
    else in_range_positive (parse_digits (c ∷ s))

-- The digits of `n`, in front of `s`, with fuel for the number of digits.
unfoldable pub digits_onto : ℕ → ℕ → Bytes → Bytes
digits_onto zero n s = s
digits_onto (suc fuel) n s =
    let more = digits_onto fuel (n / 10) ((b'0' + n % 10) ∷ s) in
    if ltb n 10 then (b'0' + n) ∷ s else more

-- strconv.Itoa; a number has no more digits than its value and one.
unfoldable pub itoa : ℕ → Bytes
unfolding digits_onto
itoa n = digits_onto (n + 1) n []
