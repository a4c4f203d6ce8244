-- ===== src/Orchestrator/Lifecycle/Waiting.antt =====
-- The polling loop of `waitUntilReady` ends.
use labforge.Base.{
  ℕ, zero, suc, ◌+◌, ◌*◌, ◌/◌, ◌≤◌, String, ◌≡◌, refl, Bool, true, false, Option, List, ◌∷◌, arith,
  ltb, is_some,
}
use mathlib.Core.Path.{subst}
use labforge.Exec.{Result, ok, err, continue, pure, ◌>>=◌}
use labforge.World.{World, M, Env, Runtime, Call, date_now, sleep, on_runtime, is_ready}
use labforge.Data.{Scheme}
use labforge.Store.{now, ask}
use labforge.Orchestrator.Lifecycle.{wait_answer, wait_round, wait_loop, wait_fuel}

-- Time does not run backwards, and a sleep of `n` milliseconds takes at least as long.
pub record ClockRuns (env : Env) : Type 0 where
  pub forward :
      (c : Call) (cs : List Call) → env.num_answer cs date_now ≤ env.num_answer (c ∷ cs) date_now
  pub sleeps :
      (n : ℕ) (cs : List Call)
      → env.num_answer cs date_now + n ≤ env.num_answer (sleep n ∷ cs) date_now

-- The fuel has not run out.
abbrev pub Settles : Result (Option Bool) → Type 0
Settles (err e) = Unit
Settles (ok o) = is_some o ≡ true

continue-Settles :
    {A : Type 0} (r : Result A) (f : A → M (Option Bool)) (s : World)
    → ((a : A) → Settles (f a s).0)
    → Settles (continue r f s).0
continue-Settles (ok a) f s h = h a
continue-Settles (err e) f s h = tt

module _ (env : Env) (clock : ClockRuns env) (rt : Runtime) (id upstream : String) (scheme : Scheme)
    (deadline : ℕ) where
  abbrev time : World → ℕ
  time s = env.num_answer s.calls date_now

  answer-Settles :
      (again : M (Option Bool)) (b : Bool) (s : World)
      → ((t : World) → time s + 1000 ≤ time t → Settles (again t).0)
      → Settles (wait_answer env again b s).0
  unfolding wait_answer ask pure ◌>>=◌
  answer-Settles again true s h = refl
  answer-Settles again false s h =
      continue-Settles (env.unit_answer s.calls (sleep 1000)) (λ _. again)
        (record s { calls = sleep 1000 ∷ s.calls }) (λ a. h _ (clock.sleeps 1000 s.calls))

  round-Settles :
      (again : M (Option Bool)) (b : Bool) (s : World)
      → (b ≡ true → (t : World) → time s + 1000 ≤ time t → Settles (again t).0)
      → Settles (wait_round env rt id upstream scheme again b s).0
  unfolding wait_round ask pure ◌>>=◌
  round-Settles again false s h = refl
  round-Settles again true s h =
      let probe = on_runtime rt (is_ready id upstream scheme) in
      let s' : World = record s { calls = probe ∷ s.calls } in
      continue-Settles (env.bool_answer s.calls probe) (wait_answer env again) s' λ answer.
        answer-Settles again answer s'
          λ t le. h refl t (omega (arith, le, clock.forward probe s.calls))

  loop-Settles :
      (fuel : ℕ) (s : World)
      → deadline ≤ time s + fuel * 1000
      → Settles (wait_loop env rt id upstream scheme deadline (suc fuel) s).0
  unfolding wait_loop now ask ◌>>=◌
  loop-Settles zero s h =
      round-Settles _ (ltb (time s) deadline) _ (λ lt. absurd (ground (arith, lt, h)))
  loop-Settles (suc fuel) s h =
      round-Settles _ (ltb (time s) deadline) _
        λ lt t le. loop-Settles fuel t (omega (arith, h, le, clock.forward date_now s.calls))

-- The loop never runs out of the fuel that `waitUntilReady` gives it, on a clock that runs: it ends with
-- an answer, or with the error of a probe, after a round a second at the most.
pub wait_loop-Settles :
    (env : Env) (rt : Runtime) (id upstream : String) (scheme : Scheme) (timeout_ms : ℕ)
    (start w : World)
    → ClockRuns env
    → env.num_answer start.calls date_now ≤ env.num_answer w.calls date_now
    → Settles
        (wait_loop env rt id upstream scheme
          (env.num_answer start.calls date_now + timeout_ms)
          (wait_fuel timeout_ms)
          w).0
wait_loop-Settles env rt id upstream scheme timeout_ms start w clock later =
    subst
      (λ n.
        Settles
          (wait_loop env rt id upstream scheme (env.num_answer start.calls date_now + timeout_ms) n
            w).0)
      fuel_is
      (loop-Settles env clock rt id upstream scheme
        (env.num_answer start.calls date_now + timeout_ms) (timeout_ms / 1000 + 1) w
        (omega (arith, later)))
  where
    fuel_is : suc (timeout_ms / 1000 + 1) ≡ wait_fuel timeout_ms
    fuel_is = omega arith
