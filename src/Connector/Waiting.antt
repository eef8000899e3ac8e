-- ===== src/Connector/Waiting.antt =====
-- How `wait_for_ready` ends.
use rbg_planner.Prelude.{
  ℕ, zero, suc, ◌<◌, Bool, true, false, if◌then◌else◌, ◌≡◌, refl, sym, ap, ◌∙◌, ◌⊎◌, inl, inr,
  arith, Bool-cases,
}
use mathlib.Core.Path.{subst}
use rbg_planner.Python.{Result, ok, err, deployment_not_ready, Method, pure, ◌>>=◌, >>=-ok}
use rbg_planner.Cluster.{Rbg, Kubernetes, rbg_ready}
use rbg_planner.Connector.{Session, get_rbg, wait_for_ready}

module _ {W : Type 0} (api : Kubernetes W) (delay : ℕ) where
  -- One round: a sleep, then a fetch.
  unfoldable pub poll : Method (Session W) Rbg
  poll s = get_rbg api (record s { world = api.sleep delay s.world })

  -- `n` rounds that each found the deployment not ready.
  pub data Polled : ℕ → Session W → Session W → Type 0 where
    none_yet : {s : Session W} → Polled zero s s
    one_more :
        {n : ℕ} {s s' s'' : Session W} (rbg : Rbg)
        → poll s ≡ (ok rbg, s')
        → rbg_ready rbg ≡ false
        → Polled n s' s''
        → Polled (suc n) s s''

  -- How a wait of `n` rounds from `s` has ended.
  abbrev pub Waited : ℕ → Session W → Result (Unit {0}) × Session W → Type 0
  Waited n s (ok _, s') =
      (k : ℕ) × (t : Session W) × (rbg : Rbg) × (k < n)
      × Polled k s t
      × (poll t ≡ (ok rbg, s'))
      × (rbg_ready rbg ≡ true)
  Waited n s (err e, s') =
      (Polled n s s' × (e ≡ deployment_not_ready s'.connector.rbg_name))
      ⊎ ((k : ℕ) × (t : Session W) × (k < n) × Polled k s t × (poll t ≡ (err e, s')))

  Waited-later :
      (n : ℕ) (s s' : Session W) (rbg : Rbg) (r : Result (Unit {0}) × Session W)
      → poll s ≡ (ok rbg, s')
      → rbg_ready rbg ≡ false
      → Waited n s' r
      → Waited (suc n) s r
  Waited-later n s s' rbg (ok _, t) e not_ready (k, u, found, less, before, last, ready) =
      (suc k, u, found, omega arith, one_more rbg e not_ready before, last, ready)
  Waited-later n s s' rbg (err x, t) e not_ready (inl (polled, gave_up)) =
      inl (one_more rbg e not_ready polled, gave_up)
  Waited-later n s s' rbg (err x, t) e not_ready (inr (k, u, less, before, last)) =
      inr (suc k, u, omega arith, one_more rbg e not_ready before, last)

  -- `wait_for_ready` ends after at most the given number of rounds, and in one of three ways: it
  -- returns after the first round that finds the deployment ready, it raises what a round raised
  -- after rounds that found it not ready, or it gives up after exactly that many such rounds.
  pub wait_for_ready-Waited :
      (attempts : ℕ) (s : Session W) → Waited attempts s (wait_for_ready api attempts delay s)
  unfolding wait_for_ready poll
  wait_for_ready-Waited zero s = inl (none_yet, refl)
  wait_for_ready-Waited (suc n) s = by_poll (wait_for_ready-Waited n) (poll s) refl
    where
      next : Session W → Bool → Result (Unit {0}) × Session W
      next s' b = (if b then pure tt else wait_for_ready api n delay) s'

      by_poll :
          ((t : Session W) → Waited n t (wait_for_ready api n delay t))
          → (x : Result Rbg × Session W) → poll s ≡ x
          → Waited
              (suc n)
              s
              (◌>>=◌ {A = Rbg} {B = Unit {0}} (λ _. x) (λ rbg s'. next s' (rbg_ready rbg)) s)
      by_poll rest (err e, s') p = inr (0, s, omega arith, none_yet, p)
      by_poll rest (ok rbg, s') p = elim (Bool-cases (rbg_ready rbg)) [
        | inl ready ↦
            subst (λ (b : Bool). Waited (suc n) s (next s' b)) (sym ready)
              (0, s, rbg, omega arith, none_yet, p, ready)
        | inr not_ready ↦
            subst (λ (b : Bool). Waited (suc n) s (next s' b)) (sym not_ready)
              (Waited-later n s s' rbg (wait_for_ready api n delay s') p not_ready (rest s'))
      ]

  -- A round that finds the deployment in some state, and what follows it.
  wait-step :
      (n : ℕ) (s : Session W) {s' : Session W} (rbg : Rbg)
      → poll s ≡ (ok rbg, s')
      → wait_for_ready api (suc n) delay s
        ≡ (if rbg_ready rbg then pure tt else wait_for_ready api n delay) s'
  unfolding wait_for_ready poll
  wait-step n s rbg e =
      >>=-ok (get_rbg api)
        (λ found. if rbg_ready found then pure tt else wait_for_ready api n delay)
        (record s { world = api.sleep delay s.world }) e

  -- A deployment that gets ready in time is waited for: where the first `k` rounds find it not ready,
  -- the next one finds it ready, and `k` is less than the number of rounds, `wait_for_ready` returns
  -- right after that round.
  pub wait_for_ready_returns :
      (n k : ℕ) (s t : Session W) {s' : Session W} (rbg : Rbg)
      → k < n
      → Polled k s t
      → poll t ≡ (ok rbg, s')
      → rbg_ready rbg ≡ true
      → wait_for_ready api n delay s ≡ (ok tt, s')
  wait_for_ready_returns zero k s t rbg less polled last ready = absurd (omega arith)
  wait_for_ready_returns (suc n) k s t {s'} rbg less none_yet last ready =
      wait-step n s rbg last
      ∙ ap (λ b. (if b then pure tt else wait_for_ready api n delay) s') ready
  wait_for_ready_returns (suc n) k s t {s'} rbg less
        (one_more {n = j} {s' = u} found here not_ready rest) last ready =
      wait-step n s found here
      ∙ ap (λ b. (if b then pure tt else wait_for_ready api n delay) u) not_ready
      ∙ wait_for_ready_returns n j u t rbg (omega arith) rest last ready
