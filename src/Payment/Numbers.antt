-- ===== src/Payment/Numbers.antt =====
-- Go's `strconv.FormatInt` and `strconv.ParseInt` in base 10 for an int64, which is its residue
-- modulo 2 ^ 64; 20 digits are enough for a number below 2 ^ 64. And `math.Round`.
use link_up_server.Base.{
  ℕ, zero, suc, ◌+◌, ◌-◌, ◌*◌, ◌/◌, ◌%◌, ◌≡◌, ◌<◌, ◌≤◌, inl, inr, refl, true, false, ◌&&◌, Option,
  none, some, [], ◌∷◌, arith, ltb, leb, ◌==◌, if◌then◌else◌, Bool-cases,
}
use link_up_server.Text.{Text}

abbrev pub two_63 : ℕ
two_63 = 0x8000000000000000

abbrev pub two_64 : ℕ
two_64 = 0x10000000000000000

-- The digits of a number before those of an accumulator.
unfoldable pub digits : ℕ → ℕ → Text → Text
digits zero n acc = acc
digits (suc fuel) n acc =
    let rest = digits fuel (n / 10) ((48 + n % 10) ∷ acc) in
    if ltb n 10 then (48 + n) ∷ acc else rest

unfoldable pub format_int : ℕ → Text
format_int r = if ltb r two_63 then digits 20 r [] else b'-' ∷ digits 20 (two_64 - r) []

unfoldable pub parse_digits : Text → ℕ → Option ℕ
parse_digits [] n = some n
parse_digits (c ∷ s) n =
    let rest = parse_digits s (n * 10 + (c - 48)) in if leb b'0' c && leb c b'9' then rest else none

-- At least one digit.
abbrev pub parse_magnitude : Text → Option ℕ
parse_magnitude [] = none
parse_magnitude (c ∷ s) = parse_digits (c ∷ s) 0

abbrev pub below_63 : Option ℕ → Option ℕ
below_63 none = none
below_63 (some n) = if ltb n two_63 then some n else none

abbrev pub negated : Option ℕ → Option ℕ
negated none = none
negated (some n) = if n == 0 then some 0 else if leb n two_63 then some (two_64 - n) else none

-- `none` is an error.
unfoldable pub parse_int : Text → Option ℕ
parse_int [] = none
parse_int (c ∷ s) =
    if c == b'-'
    then negated (parse_magnitude s)
    else if c == b'+'
    then below_63 (parse_magnitude s)
    else below_63 (parse_magnitude (c ∷ s))

-- `int64(math.Round(price))`, for a price in hundredths whose rounding is in range.
abbrev pub rounded : ℕ → ℕ
rounded price = ((price + 50) / 100) % two_64

abbrev pow10 : ℕ → ℕ
pow10 zero = 1
pow10 (suc k) = 10 * pow10 k

parse_digit :
    (d v : ℕ) (acc : Text)
    → d < 10
    → parse_digits ((48 + d) ∷ acc) v ≡ parse_digits acc (v * 10 + d)
unfolding parse_digits
parse_digit d v acc h =
    let same : v * 10 + (48 + d - 48) ≡ v * 10 + d = omega arith in
    let low : leb b'0' (48 + d) ≡ true = ground arith in
    let high : leb (48 + d) b'9' ≡ true = ground arith in rw (low, high, same) refl

parse_digits-digits :
    (fuel n : ℕ) (acc : Text)
    → n < pow10 fuel
    → parse_digits (digits fuel n acc) 0 ≡ parse_digits acc n
unfolding digits
parse_digits-digits zero n acc h = let z : n ≡ 0 = omega arith in rw (z, digits) refl
parse_digits-digits (suc fuel) n acc h = elim (Bool-cases (ltb n 10)) [
  | inl small ↦
      let same : 0 * 10 + n ≡ n = omega arith in
      rw (small, digits) (rw same at (parse_digit n 0 acc (ground arith)))
  | inr large ↦
      let rest = parse_digits-digits fuel (n / 10) ((48 + n % 10) ∷ acc) (omega arith) in
      let last = parse_digit (n % 10) (n / 10) acc (omega arith) in
      let same : n / 10 * 10 + n % 10 ≡ n = omega arith in rw (large, digits, rest, last, same) refl
]

-- The text begins with a digit.
abbrev StartsDigit : Text → Type 0
StartsDigit [] = ⊥
StartsDigit (c ∷ s) = 48 ≤ c

digits-StartsDigit : (fuel n : ℕ) (acc : Text) → StartsDigit acc → StartsDigit (digits fuel n acc)
unfolding digits
digits-StartsDigit zero n acc h = h
digits-StartsDigit (suc fuel) n acc h = elim (Bool-cases (ltb n 10)) [
  | inl small ↦ rw (small, digits) (omega arith)
  | inr large ↦
      rw (large, digits) (digits-StartsDigit fuel (n / 10) ((48 + n % 10) ∷ acc) (omega arith))
]

first_digit-StartsDigit : (fuel n : ℕ) → StartsDigit (digits (suc fuel) n [])
unfolding digits
first_digit-StartsDigit fuel n = elim (Bool-cases (ltb n 10)) [
  | inl small ↦ rw (small, digits) (omega arith)
  | inr large ↦
      rw (large, digits) (digits-StartsDigit fuel (n / 10) ((48 + n % 10) ∷ []) (omega arith))
]

parse_magnitude-StartsDigit : (s : Text) → StartsDigit s → parse_magnitude s ≡ parse_digits s 0
parse_magnitude-StartsDigit [] h = absurd h
parse_magnitude-StartsDigit (c ∷ s) h = refl

parse_int-StartsDigit : (s : Text) → StartsDigit s → parse_int s ≡ below_63 (parse_digits s 0)
unfolding parse_int
parse_int-StartsDigit [] h = absurd h
parse_int-StartsDigit (c ∷ s) h =
    let minus : (c == b'-') ≡ false = ground arith in
    let plus : (c == b'+') ≡ false = ground arith in rw (minus, plus) refl

parse_digits-20 : (n : ℕ) → n ≤ two_64 → parse_digits (digits 20 n []) 0 ≡ some n
unfolding parse_digits
parse_digits-20 n h = parse_digits-digits 20 n [] (omega arith)

-- Printing an int64 and parsing the text gives the int64.
pub parse_int-format_int : (r : ℕ) → r < two_64 → parse_int (format_int r) ≡ some r
unfolding parse_int format_int
parse_int-format_int r h = elim (Bool-cases (ltb r two_63)) [
  | inl small ↦
      let first = parse_int-StartsDigit (digits 20 r []) (first_digit-StartsDigit 19 r) in
      rw (small, format_int, first, parse_digits-20 r (ground arith), small) refl
  | inr large ↦
      let first = parse_magnitude-StartsDigit _ (first_digit-StartsDigit 19 (two_64 - r)) in
      let some_digits = parse_digits-20 (two_64 - r) (omega arith) in
      let zero_case : (two_64 - r == 0) ≡ false = ground arith in
      let range : leb (two_64 - r) two_63 ≡ true = ground arith in
      let back : two_64 - (two_64 - r) ≡ r = omega arith in
      rw (large, format_int, first, some_digits, zero_case, range, back) refl
]
