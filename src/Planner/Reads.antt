-- ===== src/Planner/Reads.antt =====
-- A predicate of the world that the planner's calls keep, through every step that writes nothing to
-- the cluster.
use rbg_planner.Prelude.{ℤ, pos, String, ◌≡◌}
use rbg_planner.Python.{Method, pure}
use rbg_planner.Python.Float.{Floating}
use rbg_planner.Python.Invariant.{Preserves, if-Preserves}
use rbg_planner.Config.{PlannerConfig}
use rbg_planner.Connector.{Session, get_role_ready_replicas}
use rbg_planner.Connector.Safety.{KeptBy, Keeps, get_role_ready_replicas-Keeps}
use rbg_planner.Planner.{Planner, Externals, set_gauge, on_session, on_world, get_num_workers}
use rbg_planner.Planner.Rules.{KeptByReads, update_correction_factors-Preserves}
use rbg_planner.Planner.Update.{update_correction_factors}

-- The calls outside the cluster keep `P`.
pub record QuietBy {F W : Type 0} (env : Externals F W) (P : W → Type 0) : Type 0 where
  pub custom_query : (query : String) (w : W) → P w → P (env.prometheus.custom_query query w).1
  pub time : (w : W) → P w → P (env.time w).1
  pub pause : (t : F) (w : W) → P w → P (env.pause t w)

module _ {F W : Type 0} ⦃d : Floating F⦄ (env : Externals F W) (P : W → Type 0) (Q : ℤ → Type 0)
    (kept : KeptBy env.kubernetes P Q) (quiet : QuietBy env P) (config : PlannerConfig F) where
  -- The invariant: the predicate, and that the settings are these.
  abbrev pub Inv : Planner F W → Type 0
  Inv s = P s.session.world × (s.config ≡ config)

  pub on_session-Inv :
      {A : Type 0} (m : Method (Session W) A)
      → Keeps env.kubernetes P Q m
      → Preserves Inv (on_session m)
  unfolding on_session
  on_session-Inv m k s (p, e) = (k s.session p, e)

  pub on_world-Inv :
      {A : Type 0} (call : W → A × W)
      → ((w : W) → P w → P (call w).1)
      → Preserves Inv (on_world call)
  unfolding on_world
  on_world-Inv call k s (p, e) = (k s.session.world p, e)

  pub get_num_workers-Inv : (name : String) → Preserves Inv (get_num_workers env name)
  unfolding get_num_workers
  get_num_workers-Inv name s h =
      if-Preserves Inv s.config.no_operation (pure (pos 1))
        (on_session (get_role_ready_replicas env.kubernetes name)) (λ s h. h)
        (on_session-Inv (get_role_ready_replicas env.kubernetes name)
          (get_role_ready_replicas-Keeps env.kubernetes P Q kept name))
        s h

  pub reads-Inv : KeptByReads env Inv
  unfolding set_gauge
  reads-Inv = record { workers = get_num_workers-Inv; gauge_kept = λ s gauge x h. h }

  pub update_correction_factors-Inv : Preserves Inv (update_correction_factors env)
  update_correction_factors-Inv =
      update_correction_factors-Preserves env Inv
        (record { reads = reads-Inv; p_kept = λ s x h. h; d_kept = λ s x h. h })
