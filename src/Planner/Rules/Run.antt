-- ===== src/Planner/Rules/Run.antt =====
-- Invariants of the planner through its start and any number of rounds.
use rbg_planner.Prelude.{ℕ, zero, suc, pos, Bool, if◌then◌else◌}
use rbg_planner.Python.{pure, lift, get, modify, ◌>>=◌, ◌>>◌}
use rbg_planner.Python.Float.{Floating, div_int}
use rbg_planner.Python.Invariant.{Preserves, bind-Preserves, if-Preserves}
use rbg_planner.Connector.{validate_deployment, wait_default}
use rbg_planner.Planner.{Planner, Externals, on_session, on_world}
use rbg_planner.Planner.Observe.{observe_metrics}
use rbg_planner.Planner.Adjust.{make_adjustments}
use rbg_planner.Planner.Run.{mark_time, start, adjust, is_due, rest, round, rounds, run}

module _ {F W : Type 0} ⦃d : Floating F⦄ (env : Externals F W) (I : Planner F W → Type 0) where
  -- An invariant that the parts of a round keep.
  pub record KeptByRounds : Type 0 where
    pub clocked : Preserves I (on_world env.time)
    pub paused : (delay : F) → Preserves I (on_world (λ w. (tt, env.pause delay w)))
    pub marked : (now : F) (s : Planner F W) → I s → I (record s { last_adjustment_time = now })
    pub observed : Preserves I (observe_metrics env)
    pub adjusted : Preserves I (make_adjustments env)

  module _ (kept : KeptByRounds) where
    pub mark_time-Preserves : Preserves I (mark_time env)
    unfolding mark_time
    mark_time-Preserves =
        bind-Preserves I (on_world env.time)
          (λ now. modify (λ s. record s { last_adjustment_time = now })) kept.clocked kept.marked

    adjust-Preserves : Preserves I (adjust env)
    unfolding adjust
    adjust-Preserves =
        bind-Preserves I (mark_time env >> observe_metrics env) (λ _. make_adjustments env)
          (bind-Preserves I (mark_time env) (λ _. observe_metrics env) mark_time-Preserves
            (λ _. kept.observed))
          (λ _. kept.adjusted)

    rest-Preserves : Preserves I (rest env)
    unfolding rest
    rest-Preserves s h =
        bind-Preserves I (lift (div_int s.config.adjustment_interval (pos 10)))
          (λ delay. on_world (λ w. (tt, env.pause delay w))) (λ s h. h) (λ delay. kept.paused delay)
          s h

    adjust_if_due-Preserves : (now : F) (b : Bool) → Preserves I (if b then adjust env else pure tt)
    adjust_if_due-Preserves now b =
        if-Preserves I b (adjust env) (pure tt) adjust-Preserves (λ s h. h)

    round-Preserves : Preserves I (round env)
    unfolding round
    round-Preserves =
        bind-Preserves I (on_world env.time)
          (λ now. get >>= λ s. (if is_due env now s then adjust env else pure tt) >> rest env)
          kept.clocked
          (λ now.
            bind-Preserves I get
              (λ s. (if is_due env now s then adjust env else pure tt) >> rest env) (λ s h. h)
              (λ s.
                bind-Preserves I (if is_due env now s then adjust env else pure tt) (λ _. rest env)
                  (adjust_if_due-Preserves now (is_due env now s)) (λ _. rest-Preserves)))

    rounds-Preserves : (n : ℕ) → Preserves I (rounds env n)
    unfolding rounds
    rounds-Preserves zero = λ s h. h
    rounds-Preserves (suc n) =
        bind-Preserves I (round env) (λ _. rounds env n) round-Preserves (λ _. rounds-Preserves n)

    pub start-Preserves :
        Preserves I (on_session (validate_deployment env.kubernetes))
        → Preserves I (on_session (wait_default env.kubernetes))
        → Preserves I (start env)
    unfolding start
    start-Preserves validated awaited s h =
        if-Preserves I s.config.no_operation (mark_time env)
          (on_session (validate_deployment env.kubernetes)
            >> on_session (wait_default env.kubernetes)
            >> mark_time env)
          mark_time-Preserves
          (bind-Preserves I
            (on_session (validate_deployment env.kubernetes)
              >> on_session (wait_default env.kubernetes))
            (λ _. mark_time env)
            (bind-Preserves I (on_session (validate_deployment env.kubernetes))
              (λ _. on_session (wait_default env.kubernetes)) validated (λ _. awaited))
            (λ _. mark_time-Preserves))
          s h

    pub run-Preserves : Preserves I (start env) → (n : ℕ) → Preserves I (run env n)
    unfolding run
    run-Preserves started n =
        bind-Preserves I (start env) (λ _. rounds env n) started (λ _. rounds-Preserves n)
