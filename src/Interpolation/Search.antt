-- ===== src/Interpolation/Search.antt =====
-- The search for the busiest operating point that meets the ITL target.
use rbg_planner.Prelude.{
  ℕ, zero, suc, ◌<◌, ◌≤◌, ℤ, true, false, Option, none, some, ◌≡◌, ◌⊎◌, inl, inr, refl, sym,
  true-ne-false, Bool-cases, le_or_gt, arith, ◌∙◌,
}
use mathlib.Core.Option.{get_or}
use mathlib.Core.Path.{subst}
use rbg_planner.Python.{ok, Result-cases, ok-injective, err-ne-ok}
use rbg_planner.Python.Float.{Floating}
use rbg_planner.Interpolation.{
  Numerics, DecodeInterpolator, search_row, axis_index, clamp_row, find_best_throughput_per_gpu,
}

le_cases : (j n : ℕ) → j < suc n → (j < n) ⊎ (j ≡ n)
le_cases j n h = omega arith

clamp_row-lt : (n : ℕ) (iy : ℤ) → 0 < n → clamp_row n iy < n
unfolding clamp_row
clamp_row-lt n iy h = ground arith

module _ {F : Type 0} ⦃d : Floating F⦄ where
  open d use {le}

  -- What a search of a row of `n` columns has found out.
  abbrev IsFound : (ℕ → F) → F → ℕ → Option ℕ → Type 0
  IsFound row itl n none = (j : ℕ) → j < n → le (row j) itl ≡ false
  IsFound row itl n (some i) =
      (i < n) × (le (row i) itl ≡ true) × ((j : ℕ) → i < j → j < n → le (row j) itl ≡ false)

  IsFound-skip :
      (row : ℕ → F) (itl : F) (n : ℕ) (o : Option ℕ)
      → le (row n) itl ≡ false
      → IsFound row itl n o
      → IsFound row itl (suc n) o
  IsFound-skip row itl n none e h =
      λ j lt. elim (le_cases j n lt) [ inl below ↦ h j below | inr last ↦ rw (last, e) ]
  IsFound-skip row itl n (some i) e (lt, meets, above) = (
    omega arith,
    meets,
    λ j more less. elim (le_cases j n less) [
      | inl below ↦ above j more below
      | inr last ↦ rw (last, e)
    ],
  )

  search_row-IsFound : (row : ℕ → F) (itl : F) (n : ℕ) → IsFound row itl n (search_row row itl n)
  unfolding search_row
  search_row-IsFound row itl zero = λ j h. elim h [ ]
  search_row-IsFound row itl (suc n) = elim (Bool-cases (le (row n) itl)) [
    | inl meets ↦ rw meets (omega arith, meets, λ j more less. absurd (omega arith))
    | inr misses ↦
        rw misses
          (IsFound-skip row itl n (search_row row itl n) misses (search_row-IsFound row itl n))
  ]

  axis_index_pos :
      (numerics : Numerics F) (n : ℕ) (axis : ℕ → F) (x : F) {i : ℤ}
      → axis_index numerics n axis x ≡ ok i
      → 0 < n
  unfolding axis_index
  axis_index_pos numerics n axis x e = ground arith

  -- The operating point at row `iy` and column `ix`, as the method returns it.
  abbrev pub point : DecodeInterpolator F → ℕ → ℕ → F × F × F
  point p iy ix = (p.thpt_interpolator iy ix, p.itl_interpolator iy ix, p.xi ix)

  -- The columns from `from` on whose ITL misses the target.
  abbrev pub MissesFrom : DecodeInterpolator F → F → ℕ → ℕ → Type 0
  MissesFrom p itl iy from =
      (j : ℕ) → from ≤ j → j < p.resolution → le (p.itl_interpolator iy j) itl ≡ false

  -- The busiest point of a row that meets the target, or the idlest point if none does.
  pub record IsBusiest (p : DecodeInterpolator F) (itl : F) (iy ix : ℕ) : Type 0 where
    pub row_lt : iy < p.resolution
    pub column_lt : ix < p.resolution
    pub above : MissesFrom p itl iy (suc ix)
    pub meets_or_none :
        (le (p.itl_interpolator iy ix) itl ≡ true) ⊎ ((ix ≡ 0) × MissesFrom p itl iy 0)

  found-IsBusiest :
      (p : DecodeInterpolator F) (itl : F) (iy : ℕ) (o : Option ℕ)
      → iy < p.resolution
      → IsFound (p.itl_interpolator iy) itl p.resolution o
      → IsBusiest p itl iy (get_or o 0)
  found-IsBusiest p itl iy none h f = record {
    row_lt = h;
    column_lt = omega arith;
    above = λ j _ lt. f j lt;
    meets_or_none = inr (refl, λ j _ lt. f j lt);
  }
  found-IsBusiest p itl iy (some i) h f = record {
    row_lt = h;
    column_lt = f.0;
    above = λ j more lt. f.2 j more lt;
    meets_or_none = inl f.1;
  }

  -- When the search for a throughput returns, what it returns is the point of the grid, in the row
  -- of the context length, at the last column whose ITL meets the target, or the point at column 0
  -- if no point of the row meets it.
  pub find_best-IsBusiest :
      (numerics : Numerics F) (p : DecodeInterpolator F) (itl context_length : F) {r : F × F × F}
      → find_best_throughput_per_gpu numerics p itl context_length ≡ ok r
      → (row : ℤ) × (ix : ℕ) × (axis_index numerics p.resolution p.yi context_length ≡ ok row)
        × (r ≡ point p (clamp_row p.resolution row) ix)
        × IsBusiest p itl (clamp_row p.resolution row) ix
  unfolding find_best_throughput_per_gpu
  find_best-IsBusiest numerics p itl context_length e =
      elim (Result-cases (axis_index numerics p.resolution p.yi context_length)) [
        | inl (row, found) ↦
            let iy = clamp_row p.resolution row in
            let o = search_row (p.itl_interpolator iy) itl p.resolution in
            (
              row,
              get_or o 0,
              found,
              sym (ok-injective _ _ (rw found at e)),
              found-IsBusiest p itl iy o
                  (clamp_row-lt p.resolution row
                    (axis_index_pos numerics p.resolution p.yi context_length found))
                  (search_row-IsFound (p.itl_interpolator iy) itl p.resolution),
            )
        | inr (failure, raised) ↦ absurd (err-ne-ok (rw raised at e))
      ]

  IsBusiest-maximal :
      (p : DecodeInterpolator F) (itl : F) (iy ix : ℕ)
      → IsBusiest p itl iy ix
      → ((y i j : ℕ)
          → i ≤ j
          → j < p.resolution
          → le (p.thpt_interpolator y i) (p.thpt_interpolator y j) ≡ true)
      → (j : ℕ) → j < p.resolution
      → le (p.itl_interpolator iy j) itl ≡ true
      → le (p.thpt_interpolator iy j) (p.thpt_interpolator iy ix) ≡ true
  IsBusiest-maximal p itl iy ix best rising j lt meets = elim (le_or_gt j ix) [
    | inl below ↦ rising iy j ix below best.column_lt
    | inr more ↦ absurd (true-ne-false (sym meets ∙ best.above j more lt))
  ]

  -- Where a later column never has less throughput in any row, no point of the row of the context
  -- length that meets the target has more throughput than the one that a search returns.
  pub find_best_maximal :
      (numerics : Numerics F) (p : DecodeInterpolator F) (itl context_length : F) (row : ℤ)
      {r : F × F × F}
      → ((y i j : ℕ)
          → i ≤ j
          → j < p.resolution
          → le (p.thpt_interpolator y i) (p.thpt_interpolator y j) ≡ true)
      → axis_index numerics p.resolution p.yi context_length ≡ ok row
      → find_best_throughput_per_gpu numerics p itl context_length ≡ ok r
      → (j : ℕ) → j < p.resolution
      → le (p.itl_interpolator (clamp_row p.resolution row) j) itl ≡ true
      → le (p.thpt_interpolator (clamp_row p.resolution row) j) r.0 ≡ true
  find_best_maximal numerics p itl context_length row rising found e j lt meets =
      let (row', ix, found', returned, best) =
        find_best-IsBusiest numerics p itl context_length e in
      let same : row' ≡ row = ok-injective _ _ (sym found' ∙ found) in
      let iy = clamp_row p.resolution row in
      rw (returned, same)
        (IsBusiest-maximal p itl iy ix
          (subst (λ (k : ℤ). IsBusiest p itl (clamp_row p.resolution k) ix) same best) rising j lt
          meets)
