-- ===== src/Go/Format/RoundTrip.antt =====
-- A number that `%d` or `%02d` prints is read back by `%d`.
use Prim.Native.Char.{code}
use Prim.Native.String.append
use gateway_orchestrator.Prelude.{
  ℕ, zero, suc, ◌+◌, ◌-◌, ◌*◌, ◌/◌, ◌%◌, ◌^◌, ◌<◌, ◌≡◌, refl, ap, ◌∙◌, String, ◌<>◌, true, false,
  some, arith, Bool-cases, inl, inr, ltb,
}
use gateway_orchestrator.Go.Int.{pos}
use gateway_orchestrator.Go.Strings.{cut_prefix}
use gateway_orchestrator.Go.Format.{
  digit, digits, decimal, format_two, is_digit, scan_digits, scan_int, scan_gateway_index, int_of,
}

pub code-digit : (d : ℕ) → d < 10 → code (digit d) ≡ 48 + d
unfolding digit
code-digit zero h = refl
code-digit (suc zero) h = refl
code-digit (suc (suc zero)) h = refl
code-digit (suc (suc (suc zero))) h = refl
code-digit (suc (suc (suc (suc zero)))) h = refl
code-digit (suc (suc (suc (suc (suc zero))))) h = refl
code-digit (suc (suc (suc (suc (suc (suc zero)))))) h = refl
code-digit (suc (suc (suc (suc (suc (suc (suc zero))))))) h = refl
code-digit (suc (suc (suc (suc (suc (suc (suc (suc zero)))))))) h = refl
code-digit (suc (suc (suc (suc (suc (suc (suc (suc (suc zero))))))))) h = refl
code-digit (suc (suc (suc (suc (suc (suc (suc (suc (suc (suc d)))))))))) h = absurd (omega arith)

is_digit-add : (d : ℕ) → d < 10 → is_digit (48 + d) ≡ true
is_digit-add d h = ground arith

scan_digits-digit :
    (d n : ℕ) (s : String)
    → d < 10
    → scan_digits (String.◌∷◌ (digit d) s) n ≡ scan_digits s (n * 10 + d)
unfolding scan_digits
scan_digits-digit d n s h =
    let same : n * 10 + (48 + d - 48) ≡ n * 10 + d = omega arith in
    rw (code-digit d h, is_digit-add d h) (ap (scan_digits s) same)

scan_digits-digits :
    (fuel n : ℕ) (out : String) → n < fuel → scan_digits (digits fuel n out) 0 ≡ scan_digits out n
unfolding digits
scan_digits-digits zero n out h = absurd (omega arith)
scan_digits-digits (suc fuel) n out h = elim (Bool-cases (ltb n 10)) [
  | inl small ↦
      rw small (rw (scan_digits-digit n 0 out (ground arith)) (ap (scan_digits out) (omega arith)))
  | inr large ↦ rw large (
      scan_digits-digits fuel (n / 10) _ (ground arith)
      ∙ scan_digits-digit (n % 10) (n / 10) out (omega arith)
      ∙ ap (scan_digits out) (omega arith))
]

-- The first character of a print is a digit.
digits_head :
    (fuel n : ℕ) (out : String)
    → n < fuel
    → (d : ℕ) × (s : String) × (digits fuel n out ≡ String.◌∷◌ (digit d) s) × (d < 10)
unfolding digits
digits_head zero n out h = absurd (omega arith)
digits_head (suc fuel) n out h = elim (Bool-cases (ltb n 10)) [
  | inl small ↦ (n, out, rw small, ground arith)
  | inr large ↦ rw large (digits_head fuel (n / 10) _ (ground arith))
]

scan_int-digit :
    (d : ℕ) (s : String)
    → d < 10
    → scan_int (String.◌∷◌ (digit d) s)
      ≡ int_of false (some (scan_digits (String.◌∷◌ (digit d) s) 0))
unfolding scan_int
scan_int-digit d s h = ground (arith, code-digit d h)

digit_append : (d : ℕ) (s t : String) → String.◌∷◌ (digit d) s <> t ≡ String.◌∷◌ (digit d) (s <> t)
digit_append d s t = append.cons (digit d) s t

zero_append : (s : String) → "0" <> s ≡ String.◌∷◌ (digit 0) s
unfolding digit
zero_append s = append.cons (digit 0) "" s ∙ ap (String.◌∷◌ (digit 0)) (append.nil s)

scan_digits-decimal : (n : ℕ) → scan_digits (decimal n) 0 ≡ n
unfolding decimal scan_digits
scan_digits-decimal n = scan_digits-digits (suc n) n "" (omega arith)

scan_int-decimal : (n : ℕ) → n < 2 ^ 63 → scan_int (decimal n) ≡ some (pos n)
unfolding decimal
scan_int-decimal n h =
    let (d, s, e, small) = digits_head (suc n) n "" (omega arith) in
    rw e (scan_int-digit d s small ∙ rw (← e) (rw (scan_digits-decimal n) (ground arith)))

scan_int-format_two : (n : ℕ) → n < 2 ^ 63 → scan_int (format_two (pos n)) ≡ some (pos n)
unfolding format_two
scan_int-format_two n h = elim (Bool-cases (ltb n 10)) [
  | inl small ↦
      rw (small, zero_append)
        (scan_int-digit 0 (decimal n) (omega arith)
          ∙ rw (scan_digits-digit 0 0 (decimal n) (omega arith))
              (rw (scan_digits-decimal n) (ground arith)))
  | inr large ↦ rw large (scan_int-decimal n h)
]

cut_prefix-append : (p s : String) → cut_prefix p (p <> s) ≡ some s
unfolding cut_prefix
cut_prefix-append String.[] s = ap some (append.nil s)
cut_prefix-append (String.◌∷◌ c p) s =
    rw (append.cons c p s) (ground (arith, cut_prefix-append p s))

-- The index in the name of a gateway, as `Sscanf(name, "gw-%d", …)` reads it.
pub scan_gateway_index-name :
    (n : ℕ) → n < 2 ^ 63 → scan_gateway_index ("gw-" <> format_two (pos n)) ≡ some (pos n)
unfolding scan_gateway_index
scan_gateway_index-name n h =
    rw (cut_prefix-append "gw-" (format_two (pos n)), scan_gateway_index) (scan_int-format_two n h)
