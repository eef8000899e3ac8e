-- ===== src/Python/Text/RoundTrip.antt =====
-- `int(text)` reads back what `str(n)` prints.
use rbg_planner.Prelude.{
  ℕ, zero, suc, ◌+◌, ◌-◌, ◌*◌, ◌/◌, ◌%◌, ◌<◌, ℤ, pos, negsuc, List, [], ◌∷◌, ◌++◌, Bool, true,
  false, some, ◌≡◌, refl, sym, ap, ◌∙◌, arith, inl, inr, lt→ltb, le→ltb, le_or_gt,
}
use Prim.Native.Char.{code}
use Prim.Native.String.append as append_clauses
use Prim.Native.String.{String, ◌++◌ as append}
use mathlib.Core.Option
use mathlib.Core.List.{append_assoc, append-nil}
use rbg_planner.Python.Text.{
  codes, is_space, is_digit, digit, digits_of, int_text, scan_digits, negated, scan_int, parse_int,
}

pub codes-append : (s t : String) → codes (append s t) ≡ codes s ++ codes t
codes-append String.[] t = ap codes (append_clauses.nil t)
codes-append (String.◌∷◌ c s) t =
    ap codes (append_clauses.cons c s t) ∙ ap (λ rest. code c ∷ rest) (codes-append s t)

pub codes-digit : (n : ℕ) → n < 10 → codes (digit n) ≡ (48 + n) ∷ []
unfolding digit
codes-digit zero h = refl
codes-digit (suc zero) h = refl
codes-digit (suc (suc zero)) h = refl
codes-digit (suc (suc (suc zero))) h = refl
codes-digit (suc (suc (suc (suc zero)))) h = refl
codes-digit (suc (suc (suc (suc (suc zero))))) h = refl
codes-digit (suc (suc (suc (suc (suc (suc zero)))))) h = refl
codes-digit (suc (suc (suc (suc (suc (suc (suc zero))))))) h = refl
codes-digit (suc (suc (suc (suc (suc (suc (suc (suc zero)))))))) h = refl
codes-digit (suc (suc (suc (suc (suc (suc (suc (suc (suc zero))))))))) h = refl
codes-digit (suc (suc (suc (suc (suc (suc (suc (suc (suc (suc n)))))))))) h = absurd (omega arith)

-- Reading one digit.
scan_one :
    (after : Bool) (n d : ℕ) (rest : List ℕ)
    → d < 10
    → scan_digits after n ((48 + d) ∷ rest) ≡ scan_digits true (n * 10 + d) rest
unfolding scan_digits
scan_one after n d rest h = rw (digit_test, back) refl
  where
    digit_test : is_digit (48 + d) ≡ true
    digit_test = ground arith

    back : 48 + d - 48 ≡ d
    back = omega arith

last_digit :
    (after : Bool) (n : ℕ) (rest : List ℕ) (d : ℕ)
    → d < 10
    → scan_digits after n (codes (digit d) ++ rest) ≡ scan_digits true (n * 10 + d) rest
last_digit after n rest d h = rw (codes-digit d h) (scan_one after n d rest h)

-- Reading the digits of a number, whatever stands behind them.
scan-digits_of :
    (fuel n : ℕ) (rest : List ℕ)
    → n < fuel
    → scan_digits false 0 (codes (digits_of fuel n) ++ rest) ≡ scan_digits true n rest
unfolding digits_of
scan-digits_of zero n rest h = absurd (omega arith)
scan-digits_of (suc fuel) n rest h = elim (le_or_gt 10 n) [
  | inr small ↦
      let whole : 0 * 10 + n ≡ n = omega arith in
      rw (lt→ltb n 10 small)
        (last_digit false 0 rest n small ∙ ap (λ (k : ℕ). scan_digits true k rest) whole)
  | inl large ↦
      let split =
        ap (λ (t : List ℕ). scan_digits false 0 (t ++ rest))
          (codes-append (digits_of fuel (n / 10)) (digit (n % 10))) in
      let whole : n / 10 * 10 + n % 10 ≡ n = omega arith in
      rw (le→ltb 10 n large) (
        split
        ∙ ap (λ (t : List ℕ). scan_digits false 0 t)
            (append_assoc (codes (digits_of fuel (n / 10))) (codes (digit (n % 10))) rest)
        ∙ scan-digits_of fuel (n / 10) (codes (digit (n % 10)) ++ rest) (omega arith)
        ∙ last_digit true (n / 10) rest (n % 10) (omega arith)
        ∙ ap (λ (k : ℕ). scan_digits true k rest) whole)
]

-- A list that begins with a digit.
abbrev StartsWithDigit : List ℕ → Type 0
StartsWithDigit [] = ⊥
StartsWithDigit (c ∷ cs) = is_digit c ≡ true

StartsWithDigit-append : (xs ys : List ℕ) → StartsWithDigit xs → StartsWithDigit (xs ++ ys)
StartsWithDigit-append [] ys h = absurd h
StartsWithDigit-append (x ∷ xs) ys h = h

StartsWithDigit-digit : (d : ℕ) → d < 10 → StartsWithDigit (codes (digit d))
StartsWithDigit-digit d h = rw (codes-digit d h) (ground arith)

StartsWithDigit-digits_of : (fuel n : ℕ) → n < fuel → StartsWithDigit (codes (digits_of fuel n))
unfolding digits_of
StartsWithDigit-digits_of zero n h = absurd (omega arith)
StartsWithDigit-digits_of (suc fuel) n h = elim (le_or_gt 10 n) [
  | inr small ↦ rw (lt→ltb n 10 small) (StartsWithDigit-digit n small)
  | inl large ↦
      rw (le→ltb 10 n large, codes-append (digits_of fuel (n / 10)) (digit (n % 10)))
        (StartsWithDigit-append (codes (digits_of fuel (n / 10))) (codes (digit (n % 10)))
          (StartsWithDigit-digits_of fuel (n / 10) (omega arith)))
]

scan_int-digits :
    (cs : List ℕ) → StartsWithDigit cs → scan_int cs ≡ Option.map pos (scan_digits false 0 cs)
unfolding scan_int is_space
scan_int-digits [] h = absurd h
scan_int-digits (c ∷ cs) h = ground arith

digits_back : (fuel n : ℕ) → n < fuel → scan_digits false 0 (codes (digits_of fuel n)) ≡ some n
unfolding scan_digits
digits_back fuel n h =
    ap (λ (t : List ℕ). scan_digits false 0 t) (sym (append-nil (codes (digits_of fuel n))))
    ∙ scan-digits_of fuel n [] h

-- Every integer is read back from its print.
pub parse_int-int_text : (n : ℤ) → parse_int (int_text n) ≡ some n
unfolding parse_int int_text scan_int negated
parse_int-int_text (pos n) =
    scan_int-digits (codes (digits_of (suc n) n))
      (StartsWithDigit-digits_of (suc n) n (omega arith))
    ∙ ap (Option.map pos) (digits_back (suc n) n (omega arith))
parse_int-int_text (negsuc n) =
    ap scan_int (codes-append "-" (digits_of (suc (suc n)) (suc n)))
    ∙ ap (Option.map negated) (digits_back (suc (suc n)) (suc n) (omega arith))
