-- ===== src/Pipeline/Served.antt =====
-- Which requests the pipeline of middleware/routing/middleware.go hands to the next handler.
use open_source.Common.{
  ◌≡◌, refl, Bool, true, false, Option, none, some, arith, Option-cases, inl, inr, Text,
}
use open_source.Common.Int.{ℤ}
use open_source.Common.GoTime.{Time, Duration}
use open_source.Common.Float.{Float64}
use open_source.Registry.Api.{CompiledRule}
use open_source.Configuration.Settings.{Config}
use open_source.Pipeline.Backends.{BackendOps, Request}
use open_source.Pipeline.Limits.{
  Limits, get_rate_limits, window_limit, punish, allow_request, is_blocked,
}
use open_source.Pipeline.Handler.{
  Limiter, Reply, served, Clock, and_then, check_body, check_global, check_attack, check_block,
  check_bot, check_rate, handle, limit_key,
}

-- A step ends a request with an error only.
abbrev refuses : Option Reply → Bool
refuses (some (served n)) = false
refuses _ = true

module _ (fl : Float64) (ops : BackendOps fl) where
  -- A request that is served has passed the step, and what comes after it serves the request.
  and_then-served :
      (step : Limiter fl ops × Option Reply) (next : Limiter fl ops → Limiter fl ops × Reply)
      (n : ℤ)
      → refuses step.1 ≡ true
      → (and_then fl ops step next).1 ≡ served n
      → (step.1 ≡ none) × ((next step.0).1 ≡ served n)
  and_then-served (l, none) next n r h = (refl, h)
  and_then-served (l, some reply) next n r h = absurd (ground (arith, r, h))

  check_body-refuses :
      (config : Config fl) (r : Request fl) → refuses (check_body fl ops config r) ≡ true
  unfolding check_body
  check_body-refuses config r = ground arith

  check_global-refuses :
      (config : Config fl) (l : Limiter fl ops) → refuses (check_global fl ops config l).1 ≡ true
  unfolding check_global
  check_global-refuses config l = ground arith

  check_block-refuses :
      (config : Config fl) (key : Text) (now : Time) (l : Limiter fl ops)
      → refuses (check_block fl ops config key now l).1 ≡ true
  unfolding check_block
  check_block-refuses config key now l = ground arith

  check_bot-refuses :
      (config : Config fl) (key : Text) (r : Request fl) (l : Limiter fl ops)
      → refuses (check_bot fl ops config key r l).1 ≡ true
  unfolding check_bot
  check_bot-refuses config key r l = ground arith

  check_rate-refuses :
      (config : Config fl) (key : Text) (limits : Limits fl) (now : Time) (l : Limiter fl ops)
      → refuses (check_rate fl ops config key limits now l).1 ≡ true
  unfolding check_rate
  check_rate-refuses config key limits now l = ground arith

  -- The backend says that the key is not blocked.
  abbrev pub Unblocked : Text → ops.State → Type 0
  Unblocked key s =
      (blocked_until : Time) × ((ops.is_key_blocked key s).1 ≡ some (false, blocked_until))

  -- The backend allows a request of the key within its limits.
  abbrev pub Admitted : Text → Limits fl → ops.State → Type 0
  Admitted key limits s =
      (retry_after : Duration) × ((ops.allow_sliding_window key
          (window_limit fl ops limits.rps limits.burst limits.window_size) limits.window_size s).1
        ≡ some (true, retry_after))

  check_block-Unblocked :
      (config : Config fl) (key : Text) (now : Time) (l : Limiter fl ops)
      → config.strict_backend_errors ≡ true
      → (check_block fl ops config key now l).1 ≡ none
      → Unblocked key l.backend
  unfolding check_block is_blocked
  check_block-Unblocked config key now l strict h =
      elim (Option-cases (ops.is_key_blocked key l.backend).1) [
        | inl error ↦ absurd (ground (arith, h, error, strict))
        | inr (a, said) ↦ (a.1, ground (arith, h, said, strict))
      ]

  check_rate-Admitted :
      (config : Config fl) (key : Text) (limits : Limits fl) (now : Time) (l : Limiter fl ops)
      → config.strict_backend_errors ≡ true
      → (check_rate fl ops config key limits now l).1 ≡ none
      → Admitted key limits l.backend
  unfolding check_rate allow_request punish
  check_rate-Admitted config key limits now l strict h =
      let limit = window_limit fl ops limits.rps limits.burst limits.window_size in
      elim (Option-cases (ops.allow_sliding_window key limit limits.window_size l.backend).1) [
        | inl error ↦ absurd (ground (arith, h, error, strict))
        | inr (a, said) ↦ (a.1, ground (arith, h, said, strict))
      ]

  -- With strict errors, a request reaches the next handler only if the backend, asked after the global
  -- limit, says that the key of the request is not blocked, and the backend, asked after the check for
  -- bots, allows the request within the limits of its path.
  pub handle-served :
      (config : Config fl) (rule : Option (CompiledRule fl)) (clock : Clock) (r : Request fl)
      (l : Limiter fl ops) (n : ℤ)
      → config.strict_backend_errors ≡ true
      → (handle fl ops config rule clock r l).1 ≡ served n
      → let key = limit_key fl ops config r in
        let after_global = check_attack fl ops clock.recorded (check_global fl ops config l).0 in
        let after_block = (check_block fl ops config key clock.checked after_global).0 in
        Unblocked key after_global.backend
        × Admitted key
            (get_rate_limits fl config rule r)
            (check_bot fl ops config key r after_block).0.backend
  unfolding handle
  handle-served config rule clock r l n strict h =
      let key = limit_key fl ops config r in
      let limits = get_rate_limits fl config rule r in
      let (body_ok, h₀) =
        and_then-served (l, check_body fl ops config r) _ n (check_body-refuses config r) h in
      let (global_ok, h₁) =
        and_then-served (check_global fl ops config l) _ n (check_global-refuses config l) h₀ in
      let l₁ = check_attack fl ops clock.recorded (check_global fl ops config l).0 in
      let (block_ok, h₂) =
        and_then-served (check_block fl ops config key clock.checked l₁) _ n
          (check_block-refuses config key clock.checked l₁) h₁ in
      let l₂ = (check_block fl ops config key clock.checked l₁).0 in
      let (bot_ok, h₃) =
        and_then-served (check_bot fl ops config key r l₂) _ n (check_bot-refuses config key r l₂)
          h₂ in
      let l₃ = (check_bot fl ops config key r l₂).0 in
      let (rate_ok, h₄) =
        and_then-served (check_rate fl ops config key limits clock.punished l₃) _ n
          (check_rate-refuses config key limits clock.punished l₃) h₃ in
      (
        check_block-Unblocked config key clock.checked l₁ strict block_ok,
        check_rate-Admitted config key limits clock.punished l₃ strict rate_ok,
      )
