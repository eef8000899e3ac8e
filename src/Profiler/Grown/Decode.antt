-- ===== src/Profiler/Grown/Decode.antt =====
-- One more point in a decode profile, and the names under which a result has its ITL.
use rbg_planner.Prelude.{ℤ, ◌++◌, [], ◌∷◌, some, ◌≡◌, ◌⊎◌, inl, inr, length, length-append, arith}
use rbg_planner.Python.Float.{Floating}
use rbg_planner.Profiler.{BenchResult}
use rbg_planner.Profiler.Prefill.{or_number}
use rbg_planner.Profiler.Grown.{or_number-some}
use rbg_planner.Profiler.Decode.{DecodeProfile, itl_of}

module _ {F : Type 0} ⦃d : Floating F⦄ where
  -- The four lists have one length.
  abbrev pub IsAligned : DecodeProfile F → Type 0
  IsAligned p =
      (length p.x_kv_usage ≡ length p.z_itl)
      × (length p.y_context_length ≡ length p.z_itl)
      × (length p.z_thpt_per_gpu ≡ length p.z_itl)

  -- A profile with one more point: the rounded numbers stand at the end of the four lists.
  abbrev pub grown : ℤ → F → F → F → DecodeProfile F → DecodeProfile F
  grown context_length kv_usage itl_ms thpt p = record {
    x_kv_usage = p.x_kv_usage ++ (d.round_to 6 kv_usage ∷ []);
    y_context_length = p.y_context_length ++ (context_length ∷ []);
    z_itl = p.z_itl ++ (d.round_to 3 itl_ms ∷ []);
    z_thpt_per_gpu = p.z_thpt_per_gpu ++ (d.round_to 2 thpt ∷ []);
  }

  pub grown-IsAligned :
      (context_length : ℤ) (kv_usage itl_ms thpt : F) (p : DecodeProfile F)
      → IsAligned p
      → IsAligned (grown context_length kv_usage itl_ms thpt p)
  grown-IsAligned context_length kv_usage itl_ms thpt p (same_x, same_y, same_z) =
      let itl = length-append p.z_itl (d.round_to 3 itl_ms ∷ []) in
      (
        omega (arith, itl, length-append p.x_kv_usage (_ ∷ [])),
        omega (arith, itl, length-append p.y_context_length (_ ∷ [])),
        omega (arith, itl, length-append p.z_thpt_per_gpu (_ ∷ [])),
      )

  -- The ITL of a result, under one of its three names.
  abbrev pub HasItl : BenchResult F → F → Type 0
  HasItl r x = (r.mean_itl_ms ≡ some x) ⊎ (r.avg_itl_ms ≡ some x) ⊎ (r.mean_tpot_ms ≡ some x)

  pub itl_of-HasItl : (r : BenchResult F) {x : F} → itl_of r ≡ some x → HasItl r x
  unfolding itl_of
  itl_of-HasItl r e =
      elim (or_number-some (or_number r.mean_itl_ms r.avg_itl_ms) r.mean_tpot_ms e) [
        | inr tpot ↦ inr (inr tpot)
        | inl first ↦ elim (or_number-some r.mean_itl_ms r.avg_itl_ms first) [
          | inl mean ↦ inl mean
          | inr avg ↦ inr (inl avg)
        ]
      ]
