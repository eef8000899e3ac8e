-- ===== src/Predictor/Window.antt =====
-- The buffer of a windowed predictor against its history: lemmas on `trim` and `append_point`.
use rbg_planner.Prelude.{
  ℕ, zero, suc, ◌+◌, ◌-◌, ◌≤◌, ◌<◌, drop-nil, pos, List, [], ◌∷◌, ◌++◌, map, length, drop,
  length-append, length-drop, drop-append, drop-drop, ◌≡◌, refl, sym, ◌∙◌, ap, arith, if◌then◌else◌,
  Bool-cases, false, ltb_ℤ, ltb-false→le, inl, inr,
}
use mathlib.Core.List.{foldl, append_assoc, append-nil}
use rbg_planner.Python.Float.{Floating}
use rbg_planner.Predictor.{last_value, last_items, trim, clean, append_point}

module _ {ℓ} {A : Type ℓ} where
  last_items-eq-drop :
      (n : ℕ) (xs : List A) → last_items (pos (suc n)) xs ≡ drop (length xs - suc n) xs
  unfolding last_items
  last_items-eq-drop n xs = ground arith

  last_items-suc_nil : (n : ℕ) → last_items {A = A} (pos (suc n)) [] ≡ []
  last_items-suc_nil n = last_items-eq-drop n [] ∙ drop-nil (0 - suc n)

  drop-zero : (k : ℕ) (xs : List A) → k ≡ 0 → drop k xs ≡ xs
  drop-zero zero xs e = refl
  drop-zero (suc k) xs e = absurd (omega arith)

  pub trim-eq-last_items :
      (n : ℕ) (xs : List A) → trim (pos (suc n)) xs ≡ last_items (pos (suc n)) xs
  unfolding trim
  trim-eq-last_items n xs = elim (Bool-cases (ltb_ℤ (pos (suc n)) (pos (length xs)))) [
    | inl longer ↦ rw longer
    | inr fits ↦ rw fits (
        sym (
          last_items-eq-drop n xs
          ∙ drop-zero (length xs - suc n) xs
              (omega (arith, ltb-false→le (suc n + 0) (length xs + 0) fits))))
  ]

  pub last_items-snoc :
      (n : ℕ) (xs : List A) (v : A)
      → last_items (pos (suc n)) (last_items (pos (suc n)) xs ++ (v ∷ []))
        ≡ last_items (pos (suc n)) (xs ++ (v ∷ []))
  last_items-snoc n xs v =
      let h = length xs in
      let k = h - suc n in
      let both = xs ++ (v ∷ []) in
      rw
        (
          last_items-eq-drop n xs,
          last_items-eq-drop n (drop k xs ++ (v ∷ [])),
          last_items-eq-drop n both,
        )
        (rw (← drop-append k xs (v ∷ []) (omega arith)) (
          drop-drop k (length (drop k both) - suc n) both
          ∙ ap (λ (m : ℕ). drop m both)
              (omega (arith, length-drop k both, length-append xs (v ∷ [])))))

  -- The newest item survives a cut.
  pub trim-snoc :
      (n : ℕ) (xs : List A) (v : A)
      → (ys : List A) × (trim (pos (suc n)) (xs ++ (v ∷ [])) ≡ ys ++ (v ∷ []))
  trim-snoc n xs v =
      let k = length (xs ++ (v ∷ [])) - suc n in
      (
        drop k xs,
        trim-eq-last_items n (xs ++ (v ∷ []))
            ∙ last_items-eq-drop n (xs ++ (v ∷ []))
            ∙ drop-append k xs (v ∷ []) (omega (arith, length-append xs (v ∷ []))),
      )

  trim-zero : (xs : List A) → trim (pos 0) xs ≡ xs
  unfolding trim
  trim-zero xs = elim (Bool-cases (ltb_ℤ (pos 0) (pos (length xs)))) [
    | inl some_items ↦ rw some_items
    | inr empty ↦ rw empty
  ]

  pub length-last_items : (n : ℕ) (xs : List A) → length (last_items (pos (suc n)) xs) ≤ suc n
  length-last_items n xs =
      rw (last_items-eq-drop n xs) (omega (arith, length-drop (length xs - suc n) xs))

-- What a buffer of unbounded size holds: the cleaned observations from the first that is not zero.
module _ {F : Type 0} ⦃d : Floating F⦄ where
  open d use {of_int, eq}

  -- The values from the first that is not zero on.
  abbrev pub skip_zeros : List F → List F
  skip_zeros [] = []
  skip_zeros (v ∷ vs) = let rest = skip_zeros vs in if eq v (of_int (pos 0)) then rest else v ∷ vs

  append_point-cons : (v x : F) (xs : List F) → append_point v (x ∷ xs) ≡ (x ∷ xs) ++ (clean v ∷ [])
  unfolding append_point
  append_point-cons v x xs = ground arith

  append_point_pos :
      (v : F) (xs : List F) → 0 < length xs → append_point v xs ≡ xs ++ (clean v ∷ [])
  append_point_pos v [] h = absurd (omega arith)
  append_point_pos v (x ∷ xs) h = append_point-cons v x xs

  foldl-append_point_cons :
      (vs : List F) (x : F) (xs : List F)
      → foldl (λ buffer v. append_point v buffer) (x ∷ xs) vs ≡ (x ∷ xs) ++ map clean vs
  foldl-append_point_cons [] x xs = simp append-nil
  foldl-append_point_cons (v ∷ vs) x xs = rw (append_point-cons v x xs) (
      foldl-append_point_cons vs x (xs ++ (clean v ∷ []))
      ∙ append_assoc (x ∷ xs) (clean v ∷ []) (map clean vs))

  pub foldl-append_point :
      (vs : List F) → foldl (λ buffer v. append_point v buffer) [] vs ≡ skip_zeros (map clean vs)
  unfolding append_point
  foldl-append_point [] = refl
  foldl-append_point (v ∷ vs) = elim (Bool-cases (eq (clean v) (of_int (pos 0)))) [
    | inl zero_value ↦ rw zero_value (foldl-append_point vs)
    | inr other ↦ rw other (foldl-append_point_cons vs (clean v) [])
  ]

  -- A buffer is as empty as its last `n + 1` items, so a leading zero is judged alike.
  append_point-last_items-suc :
      (n : ℕ) (v : F) (xs : List F)
      → trim (pos (suc n)) (append_point v (last_items (pos (suc n)) xs))
        ≡ last_items (pos (suc n)) (append_point v xs)
  append_point-last_items-suc n v [] =
      rw (last_items-suc_nil {A = F} n) (trim-eq-last_items n (append_point v []))
  append_point-last_items-suc n v (x ∷ xs) =
      rw
        (
          append_point_pos v (last_items (pos (suc n)) (x ∷ xs)) (
              rw (last_items-eq-drop n (x ∷ xs))
                (omega (arith, length-drop (length (x ∷ xs) - suc n) (x ∷ xs)))),
          append_point-cons v x xs,
        )
        (trim-eq-last_items n (last_items (pos (suc n)) (x ∷ xs) ++ (clean v ∷ []))
          ∙ last_items-snoc n (x ∷ xs) (clean v))

module _ {F : Type 0} ⦃d : Floating F⦄ where
  -- The same for a window of zero too, through which everything is seen.
  pub append_point-last_items :
      (n : ℕ) (v : F) (xs : List F)
      → trim (pos n) (append_point v (last_items (pos n) xs))
        ≡ last_items (pos n) (append_point v xs)
  unfolding last_items
  append_point-last_items zero v xs = trim-zero (append_point v xs)
  append_point-last_items (suc n) v xs = append_point-last_items-suc n v xs

pub last_items-nil {ℓ} : {A : Type ℓ} (n : ℕ) → last_items {A = A} (pos n) [] ≡ []
unfolding last_items
last_items-nil zero = refl
last_items-nil (suc n) = last_items-suc_nil n

pub last_value-snoc :
    {F : Type 0} ⦃d : Floating F⦄ (xs : List F) (v : F) → last_value (xs ++ (v ∷ [])) ≡ v
unfolding last_value
last_value-snoc [] v = refl
last_value-snoc (x ∷ []) v = refl
last_value-snoc (x ∷ y ∷ xs) v = last_value-snoc (y ∷ xs) v

module _ {F : Type 0} ⦃d : Floating F⦄ where
  open d use {of_int, eq}

  pub append_point_nonzero :
      (v : F) (xs : List F)
      → eq (clean v) (of_int (pos 0)) ≡ false
      → append_point v xs ≡ xs ++ (clean v ∷ [])
  append_point_nonzero v (x ∷ xs) h = append_point-cons v x xs
  append_point_nonzero v [] h = unfold append_point in rw h
