-- ===== src/Profiler/Grown.antt =====
-- One more point in a prefill profile, and the names under which a result has its TTFT. The child is
-- about decode profiles.
pub mod Decode
use rbg_planner.Prelude.{
  ℤ, pos, [], ◌∷◌, ◌++◌, Option, none, some, ◌≡◌, refl, ◌∙◌, ◌⊎◌, inl, inr, Bool-cases, length,
  length-append, arith,
}
use rbg_planner.Python.Float.{Floating}
use rbg_planner.Profiler.{BenchResult}
use rbg_planner.Profiler.Prefill.{PrefillProfile, or_number, ttft_of}

module _ {F : Type 0} ⦃d : Floating F⦄ where
  open d use {of_int, le}

  -- The three lists have one length.
  abbrev pub IsAligned : PrefillProfile F → Type 0
  IsAligned p =
      (length p.prefill_ttft ≡ length p.prefill_isl)
      × (length p.prefill_thpt_per_gpu ≡ length p.prefill_isl)

  -- A profile with one more point: the rounded numbers stand at the end of the three lists.
  abbrev pub grown : ℤ → F → F → PrefillProfile F → PrefillProfile F
  grown isl ttft_ms thpt p = record {
    prefill_isl = p.prefill_isl ++ (isl ∷ []);
    prefill_ttft = p.prefill_ttft ++ (d.round_to 2 ttft_ms ∷ []);
    prefill_thpt_per_gpu = p.prefill_thpt_per_gpu ++ (d.round_to 2 thpt ∷ []);
  }

  pub grown-IsAligned :
      (isl : ℤ) (ttft_ms thpt : F) (p : PrefillProfile F)
      → IsAligned p
      → IsAligned (grown isl ttft_ms thpt p)
  grown-IsAligned isl ttft_ms thpt p (same_ttft, same_thpt) = (
    omega (arith, length-append p.prefill_ttft (_ ∷ []), length-append p.prefill_isl (isl ∷ [])),
    omega (
      arith,
      length-append p.prefill_thpt_per_gpu (_ ∷ []),
      length-append p.prefill_isl (isl ∷ []),
    ),
  )

  -- The TTFT of a result: of its three names the first that it has, or the third.
  abbrev pub HasTtft : BenchResult F → F → Type 0
  HasTtft r x =
      (r.mean_ttft_ms ≡ some x)
      ⊎ ((r.mean_ttft_ms ≡ none) × ((r.avg_ttft_ms ≡ some x) ⊎ (r.mean_ttft ≡ some x)))

  pub or_number-some :
      (a b : Option F) {x : F} → or_number a b ≡ some x → (a ≡ some x) ⊎ (b ≡ some x)
  unfolding or_number
  or_number-some none b e = inr e
  or_number-some (some y) b e = elim (Bool-cases (d.eq y (of_int (pos 0)))) [
    | inl zero_value ↦ inr (rw zero_value at e)
    | inr other ↦ inl (rw other at e)
  ]

  pub ttft_of-HasTtft : (r : BenchResult F) {x : F} → ttft_of r ≡ some x → HasTtft r x
  unfolding ttft_of
  ttft_of-HasTtft r {x} e = go r.mean_ttft_ms refl e
    where
      go :
          (o : Option F)
          → r.mean_ttft_ms ≡ o
          → elim o [ none ↦ or_number r.avg_ttft_ms r.mean_ttft | some y ↦ some y ] ≡ some x
          → HasTtft r x
      go none missing h = inr (missing, or_number-some r.avg_ttft_ms r.mean_ttft h)
      go (some y) has h = inl (has ∙ h)
