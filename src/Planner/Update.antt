-- ===== src/Planner/Update.antt =====
-- `Planner._update_correction_factors`, from its halves.
use rbg_planner.Prelude.{ℤ, pos, eq_ℤ, if◌then◌else◌}
use rbg_planner.Python.{Method, pure, modify, ◌>>=◌, ◌>>◌}
use rbg_planner.Python.Float.{Floating}
use rbg_planner.Planner.{Planner, Externals, get_num_workers}
use rbg_planner.Planner.Correct.{update_p_correction, update_d_correction, export_corrections}

module _ {F W : Type 0} ⦃d : Floating F⦄ (env : Externals F W) where
  -- The two corrections and their export; an exception in the second half leaves the first done.
  unfoldable pub correct : ℤ → Method (Planner F W) (Unit {0})
  unfolding update_p_correction update_d_correction export_corrections
  correct num_d =
      update_p_correction env >> update_d_correction env num_d >> modify (export_corrections env)

  unfoldable pub correct_if_workers : ℤ → Method (Planner F W) (Unit {0})
  unfolding correct
  correct_if_workers num_d = if eq_ℤ num_d (pos 0) then pure tt else correct num_d

  unfoldable pub update_correction_factors : Method (Planner F W) (Unit {0})
  unfolding get_num_workers correct_if_workers
  update_correction_factors s =
      (get_num_workers env s.config.decode_role_name >>= correct_if_workers) s
