-- ===== src/Go/Format.antt =====
-- Package fmt: the verbs `%d` and `%02d` of `Sprintf`, and `Sscanf` with `%d` alone and `gw-%d`.
pub mod RoundTrip
use Prim.Native.Char.{Char, code}
use Prim.Native.String
use gateway_orchestrator.Prelude.{
  ℕ, zero, suc, ◌+◌, ◌-◌, ◌*◌, ◌/◌, ◌%◌, ◌^◌, String, ◌<>◌, Bool, true, false, ◌&&◌, ◌||◌, Option,
  none, some, List, [], ◌∷◌, ltb, leb, eqb, if◌then◌else◌,
}
use gateway_orchestrator.Go.Int.{ℤ, pos, negsuc}
use gateway_orchestrator.Go.Strings.{nth, cut_prefix}

unfoldable pub digit : ℕ → Char
unfolding nth
digit n = nth "0123456789" n

-- The digits of a number before `out`; the fuel is the number of digits at least.
unfoldable pub digits : ℕ → ℕ → String → String
unfolding digit
digits zero n out = out
digits (suc fuel) n out =
    let rest = digits fuel (n / 10) (String.◌∷◌ (digit (n % 10)) out) in
    if ltb n 10 then String.◌∷◌ (digit n) out else rest

unfoldable pub decimal : ℕ → String
unfolding digits
decimal n = digits (suc n) n ""

-- `%d`
unfoldable pub format_int : ℤ → String
unfolding decimal
format_int (pos n) = decimal n
format_int (negsuc n) = "-" <> decimal (n + 1)

-- `%02d`: at least two characters, the sign among them.
unfoldable pub format_two : ℤ → String
format_two (pos n) = if ltb n 10 then "0" <> decimal n else decimal n
format_two (negsuc n) = "-" <> decimal (n + 1)

abbrev pub is_digit : ℕ → Bool
is_digit c = leb b'0' c && leb c b'9'

-- The digits at the front, read behind the number `n`; what follows them stays unread.
unfoldable pub scan_digits : String → ℕ → ℕ
scan_digits String.[] n = n
scan_digits (String.◌∷◌ c s) n =
    let rest = scan_digits s (n * 10 + (code c - b'0')) in if is_digit (code c) then rest else n

-- At least one digit is wanted.
unfoldable pub scan_number : String → Option ℕ
unfolding scan_digits
scan_number String.[] = none
scan_number (String.◌∷◌ c s) =
    if is_digit (code c) then some (scan_digits (String.◌∷◌ c s) 0) else none

abbrev pub int_of : Bool → Option ℕ → Option ℤ
int_of minus none = none
int_of false (some n) = if ltb n (2 ^ 63) then some (pos n) else none
int_of true (some zero) = some (pos 0)
int_of true (some (suc n)) = if ltb n (2 ^ 63) then some (negsuc n) else none

unfoldable pub scan_signed : String → Option ℤ
unfolding scan_number
scan_signed String.[] = none
scan_signed (String.◌∷◌ c s) =
    if eqb (code c) b'-'
    then int_of true (scan_number s)
    else if eqb (code c) b'+'
    then int_of false (scan_number s)
    else int_of false (scan_number (String.◌∷◌ c s))

-- `Sscanf(s, "%d", &v)`: spaces before the number are skipped, but a line's end is an error.
-- `none` is an error, which leaves the variable as it was.
unfoldable pub scan_int : String → Option ℤ
unfolding scan_signed
scan_int String.[] = none
scan_int (String.◌∷◌ c s) =
    let rest = scan_int s in
    if eqb (code c) 10
    then none
    else if eqb (code c) 32 || (leb 9 (code c) && leb (code c) 13)
    then rest
    else scan_signed (String.◌∷◌ c s)

-- `Sscanf(s, "gw-%d", &v)`
unfoldable pub scan_gateway_index : String → Option ℤ
unfolding scan_int cut_prefix
scan_gateway_index s = elim (cut_prefix "gw-" s) [ none ↦ none | some rest ↦ scan_int rest ]

-- `hex.EncodeToString`
unfoldable pub hex_encode : List ℕ → String
unfolding nth
hex_encode [] = ""
hex_encode (b ∷ bytes) =
    String.◌∷◌ (nth "0123456789abcdef" (b / 16))
      (String.◌∷◌ (nth "0123456789abcdef" (b % 16)) (hex_encode bytes))
