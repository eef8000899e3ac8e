-- ===== src/Planner/Marked.antt =====
-- When the planner adjusts: what one round of its loop does to the mark of the last adjustment.
use rbg_planner.Prelude.{ℤ, pos, Bool, true, false, some, if◌then◌else◌, ◌≡◌, refl, sym, ap, ◌∙◌}
use mathlib.Core.Path.{subst}
use rbg_planner.Python.{Result, pure, lift, ◌>>◌}
use rbg_planner.Python.Float.{Floating, div_int}
use rbg_planner.Python.Invariant.{Preserves, bind-Preserves}
use rbg_planner.Planner.{Planner, Externals, set_gauge, on_world, attempt}
use rbg_planner.Planner.Observe.{store_observation, observe_metrics}
use rbg_planner.Planner.Update.{update_correction_factors}
use rbg_planner.Planner.Adjust.{try_corrections, make_adjustments}
use rbg_planner.Planner.Run.{mark_time, adjust, is_due, rest, round}
use rbg_planner.Planner.Rules.{attempt-Preserves, update_correction_factors-Preserves}
use rbg_planner.Planner.Rules.Local.{
  IsLocal, on_world-Preserves, reads-Preserves, observe_metrics-local, make_adjustments-local,
}

module _ {F W : Type 0} ⦃d : Floating F⦄ (env : Externals F W) where
  -- The planner marked at `time`, with this interval.
  abbrev pub IsMarked : ℤ → F → Planner F W → Type 0
  IsMarked interval time s =
      (s.config.adjustment_interval ≡ interval) × (s.last_adjustment_time ≡ time)

  module _ (interval : ℤ) (time : F) where
    IsMarked-IsLocal : IsLocal env (IsMarked interval time)
    unfolding set_gauge store_observation
    IsMarked-IsLocal = record {
      session_kept = λ s k h. h;
      gauge_kept = λ s gauge x h. h;
      stored = λ o s h. h;
      hours_kept = λ s x h. h;
    }

    try_corrections-IsMarked : Preserves (IsMarked interval time) (try_corrections env)
    unfolding try_corrections
    try_corrections-IsMarked s h = go s.config.no_correction
      where
        go :
            (b : Bool)
            → IsMarked interval time
                ((if b then pure (some tt) else attempt (update_correction_factors env)) s).1
        go true = h
        go false =
            attempt-Preserves (IsMarked interval time) (update_correction_factors env)
              (update_correction_factors-Preserves env (IsMarked interval time) (record {
                reads = reads-Preserves env (IsMarked interval time) IsMarked-IsLocal;
                p_kept = λ s x h. h;
                d_kept = λ s x h. h;
              }))
              s h

    rest-IsMarked : Preserves (IsMarked interval time) (rest env)
    unfolding rest
    rest-IsMarked s h =
        bind-Preserves (IsMarked interval time)
          (lift (div_int s.config.adjustment_interval (pos 10)))
          (λ delay. on_world (λ w. (tt, env.pause delay w))) (λ s h. h)
          (λ delay.
            on_world-Preserves env (IsMarked interval time) IsMarked-IsLocal
              (λ w. (tt, env.pause delay w)))
          s h

    -- Once the time is marked, the rest of an adjustment leaves it.
    adjusted-IsMarked :
        Preserves (IsMarked interval time) (observe_metrics env >> make_adjustments env)
    adjusted-IsMarked =
        bind-Preserves (IsMarked interval time) (observe_metrics env) (λ _. make_adjustments env)
          (observe_metrics-local env (IsMarked interval time) IsMarked-IsLocal)
          (λ _.
            make_adjustments-local env (IsMarked interval time) IsMarked-IsLocal
              try_corrections-IsMarked)

  -- The planner after a call that only the world answers.
  abbrev pub moved : Planner F W → W → Planner F W
  moved s w = record s { session = record s.session { world = w } }

  -- The clock as a round reads it, and as the adjustment reads it again.
  abbrev pub round_time : Planner F W → F
  round_time s = (env.time s.session.world).0

  abbrev pub after_time : Planner F W → Planner F W
  after_time s = moved s (env.time s.session.world).1

  -- A round before the interval has passed reads the clock, and rests.
  round-rest :
      (s : Planner F W)
      → is_due env (round_time s) s ≡ false
      → round env s ≡ rest env (after_time s)
  unfolding round on_world is_due
  round-rest s early = rw early

  round-adjust :
      (s : Planner F W)
      → is_due env (round_time s) s ≡ true
      → round env s ≡ (adjust env >> rest env) (after_time s)
  unfolding round on_world is_due
  round-adjust s due = rw due

  rest-moved : (s : Planner F W) → (w : W) × ((rest env s).1 ≡ moved s w)
  unfolding rest on_world
  rest-moved s = (_, refl)

  pub round-waited :
      (s : Planner F W)
      → is_due env (round_time s) s ≡ false
      → (w : W) × ((round env s).1 ≡ moved s w)
  round-waited s early =
      let (w, rested) = rest-moved (after_time s) in
      (w, ap (λ (x : Result (Unit {0}) × Planner F W). x.1) (round-rest s early) ∙ rested)

  -- The time that an adjustment marks.
  abbrev pub marked_time : Planner F W → F
  marked_time s = (env.time (after_time s).session.world).0

  pub round-IsMarked :
      (s : Planner F W)
      → is_due env (round_time s) s ≡ true
      → IsMarked s.config.adjustment_interval (marked_time s) (round env s).1
  unfolding adjust mark_time on_world
  round-IsMarked s due =
      let I = IsMarked s.config.adjustment_interval (marked_time s) in
      subst (λ (x : Result (Unit {0}) × Planner F W). I x.1) (sym (round-adjust s due))
        (bind-Preserves I (observe_metrics env >> make_adjustments env) (λ _. rest env)
          (adjusted-IsMarked s.config.adjustment_interval (marked_time s))
          (λ _. rest-IsMarked s.config.adjustment_interval (marked_time s))
          (record (moved (after_time s) (env.time (after_time s).session.world).1) {
            last_adjustment_time = marked_time s;
          })
          (refl, refl))
