-- ===== src/Planner/Run.antt =====
-- `Planner.run`: the checks at the start, and the rounds of the main loop.
use rbg_planner.Prelude.{ℕ, zero, suc, pos, Bool, if◌then◌else◌}
use rbg_planner.Python.{Method, pure, lift, get, modify, ◌>>=◌, ◌>>◌}
use rbg_planner.Python.Float.{Floating, div_int}
use rbg_planner.Connector.{validate_deployment, wait_for_ready}
use rbg_planner.Connector.Interface.{rbg_connector}
use rbg_planner.Planner.{Planner, Externals, on_session, on_world}
use rbg_planner.Planner.Observe.{observe_metrics}
use rbg_planner.Planner.Adjust.{make_adjustments}

module _ {F W : Type 0} ⦃d : Floating F⦄ (env : Externals F W) where
  open d use {of_int, sub, le}

  -- `self.last_adjustment_time = time.time()`
  unfoldable pub mark_time : Method (Planner F W) (Unit {0})
  unfolding on_world
  mark_time = do now ← on_world env.time; modify (λ s. record s { last_adjustment_time = now })

  unfoldable pub start : Method (Planner F W) (Unit {0})
  unfolding on_session validate_deployment wait_for_ready mark_time
  start s =
      (if s.config.no_operation
          then mark_time
          else (on_session (rbg_connector env.kubernetes).validate_deployment
              >> on_session (rbg_connector env.kubernetes).wait_for_ready
              >> mark_time))
        s

  -- The body of the `if`: one adjustment.
  unfoldable pub adjust : Method (Planner F W) (Unit {0})
  unfolding mark_time observe_metrics make_adjustments
  adjust = do mark_time; observe_metrics env; make_adjustments env

  -- The test of a round: whether the interval has passed at `current_time`.
  unfoldable pub is_due : F → Planner F W → Bool
  is_due current_time s =
      le (of_int s.config.adjustment_interval) (sub current_time s.last_adjustment_time)

  -- `await asyncio.sleep(self.config.adjustment_interval / 10)`
  unfoldable pub rest : Method (Planner F W) (Unit {0})
  unfolding on_world
  rest s =
      (do
        delay ← lift (div_int s.config.adjustment_interval (pos 10))
        on_world (λ w. (tt, env.pause delay w)))
        s

  -- One round of `while True`.
  unfoldable pub round : Method (Planner F W) (Unit {0})
  unfolding on_world is_due adjust rest
  round = do
    current_time ← on_world env.time
    s ← get
    if is_due current_time s then adjust else pure tt
    rest

  -- The loop up to `n` rounds; it ends earlier only by an exception.
  unfoldable pub rounds : ℕ → Method (Planner F W) (Unit {0})
  unfolding round
  rounds zero = pure tt
  rounds (suc n) = round >> rounds n

  unfoldable pub run : ℕ → Method (Planner F W) (Unit {0})
  unfolding start rounds
  run n = start >> rounds n
