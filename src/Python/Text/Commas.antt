-- ===== src/Python/Text/Commas.antt =====
-- Integers with commas between them: `text.split(",")` and `int` of each piece.
use rbg_planner.Prelude.{
  ℕ, zero, suc, ◌/◌, ◌%◌, ◌<◌, ℤ, pos, negsuc, List, [], ◌∷◌, ◌++◌, All, false, ◌==◌, ◌≡◌, refl, ap,
  ◌∙◌, arith, inl, inr, lt→ltb, le→ltb, le_or_gt, String,
}
use Prim.Native.String.{◌++◌ as append}
use rbg_planner.Python.Text.{codes, digit, digits_of, int_text, join_head, split_commas}
use rbg_planner.Python.Text.RoundTrip.{codes-append, codes-digit}

abbrev NoComma : List ℕ → Type 0
NoComma = All (λ c. (c == 44) ≡ false)

NoComma-append : (xs ys : List ℕ) → NoComma xs → NoComma ys → NoComma (xs ++ ys)
NoComma-append [] ys h k = k
NoComma-append (x ∷ xs) ys (first, h) k = (first, NoComma-append xs ys h k)

NoComma-digit : (d : ℕ) → d < 10 → NoComma (codes (digit d))
NoComma-digit d h = rw (codes-digit d h) (ground arith, tt)

NoComma-digits_of : (fuel n : ℕ) → NoComma (codes (digits_of fuel n))
unfolding digits_of
NoComma-digits_of zero n = tt
NoComma-digits_of (suc fuel) n = elim (le_or_gt 10 n) [
  | inr small ↦ rw (lt→ltb n 10 small) (NoComma-digit n small)
  | inl large ↦
      rw (le→ltb 10 n large, codes-append (digits_of fuel (n / 10)) (digit (n % 10)))
        (NoComma-append (codes (digits_of fuel (n / 10))) (codes (digit (n % 10)))
          (NoComma-digits_of fuel (n / 10)) (NoComma-digit (n % 10) (omega arith)))
]

NoComma-int_text : (n : ℤ) → NoComma (codes (int_text n))
unfolding int_text
NoComma-int_text (pos n) = NoComma-digits_of (suc n) n
NoComma-int_text (negsuc n) =
    rw (codes-append "-" (digits_of (suc (suc n)) (suc n)))
      (refl, NoComma-digits_of (suc (suc n)) (suc n))

split_commas-one : (cs : List ℕ) → NoComma cs → split_commas cs ≡ cs ∷ []
unfolding split_commas
split_commas-one [] h = refl
split_commas-one (c ∷ cs) (other, h) = rw (other) (ap (join_head c) (split_commas-one cs h))

split_commas-more :
    (cs rest : List ℕ) → NoComma cs → split_commas (cs ++ (44 ∷ rest)) ≡ cs ∷ split_commas rest
unfolding split_commas
split_commas-more [] rest h = refl
split_commas-more (c ∷ cs) rest (other, h) =
    rw (other) (ap (join_head c) (split_commas-more cs rest h))

-- The integers `n` and `ns`, with commas between them.
abbrev pub comma_text : ℤ → List ℤ → String
comma_text n [] = int_text n
comma_text n (m ∷ ns) = append (int_text n) (append "," (comma_text m ns))

abbrev pub pieces : List ℤ → List (List ℕ)
pieces [] = []
pieces (n ∷ ns) = codes (int_text n) ∷ pieces ns

pub split_commas-comma_text :
    (n : ℤ) (ns : List ℤ) → split_commas (codes (comma_text n ns)) ≡ pieces (n ∷ ns)
split_commas-comma_text n [] = split_commas-one (codes (int_text n)) (NoComma-int_text n)
split_commas-comma_text n (m ∷ ns) =
    ap split_commas (
      codes-append (int_text n) (append "," (comma_text m ns))
      ∙ ap (λ cs. codes (int_text n) ++ cs) (codes-append "," (comma_text m ns)))
    ∙ split_commas-more (codes (int_text n)) (codes (comma_text m ns)) (NoComma-int_text n)
    ∙ ap (λ ps. codes (int_text n) ∷ ps) (split_commas-comma_text m ns)
