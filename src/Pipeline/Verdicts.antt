-- ===== src/Pipeline/Verdicts.antt =====
-- What the pipeline of middleware/routing/middleware.go decides.
use open_source.Common.{ℕ, ◌+◌, ◌≡◌, false, Option, none, some, arith, Text}
use open_source.Common.Int.{ℤ, pos, ◌≤ℤ◌, ◌<ℤ◌}
use open_source.Common.GoTime.{Time, Duration}
use open_source.Common.Float.{Float64}
use open_source.Registry.Api.{CompiledRule}
use open_source.Configuration.Settings.{Config}
use open_source.Pipeline.Backends.{BackendOps, Request}
use open_source.Pipeline.Limits.{Limits, get_rate_limits, bounded, calculate_block_duration}
use open_source.Pipeline.Handler.{
  Limiter, Reply, ip_blocked, served, bad_request, too_large, unavailable, rate_limited,
  bot_detected, Clock, and_then, check_body, check_global, check_attack, check_block, check_bot,
  check_rate, serve, handle, limit_key,
}

module _ (fl : Float64) where
  -- Without jitter, no block is longer than the maximum of the configuration, if it has one.
  calculate_block_duration-le :
      (config : Config fl) (violations : ℤ) (base : Duration) (now : Time)
      → pos 0 <ℤ config.max_block_duration
      → config.enable_jitter ≡ false
      → calculate_block_duration fl config violations base now ≤ℤ config.max_block_duration
  unfolding calculate_block_duration bounded
  calculate_block_duration-le config violations base now positive steady = ground arith

module _ (fl : Float64) (ops : BackendOps fl) where
  -- The counters of requests that were let through and of those that were not.
  abbrev pub counted : Limiter fl ops → ℕ
  counted l = l.allowed + l.blocked + l.bot_blocked

  -- The requests that a reply counts as decided.
  abbrev pub decides : Reply → ℕ
  decides bad_request = 0
  decides too_large = 0
  decides unavailable = 0
  decides (rate_limited d) = 1
  decides (ip_blocked d) = 1
  decides (bot_detected d) = 1
  decides (served n) = 1

  -- The same of a step, which may leave the decision to the next.
  abbrev decides_step : Option Reply → ℕ
  decides_step none = 0
  decides_step (some reply) = decides reply

  Counts : Limiter fl ops → Limiter fl ops × Reply → Type 0
  Counts l r = counted r.0 ≡ counted l + decides r.1

  and_then-counted :
      (l : Limiter fl ops) (step : Limiter fl ops × Option Reply)
      (next : Limiter fl ops → Limiter fl ops × Reply)
      → counted step.0 ≡ counted l + decides_step step.1
      → ((m : Limiter fl ops) → counted (next m).0 ≡ counted m + decides (next m).1)
      → counted (and_then fl ops step next).0 ≡ counted l + decides (and_then fl ops step next).1
  and_then-counted l (m, none) next h k = ground (arith, h, k m)
  and_then-counted l (m, some reply) next h k = h

  check_global-counted :
      (config : Config fl) (l : Limiter fl ops)
      → counted (check_global fl ops config l).0
        ≡ counted l + decides_step (check_global fl ops config l).1
  unfolding check_global
  check_global-counted config l = ground arith

  check_block-counted :
      (config : Config fl) (key : Text) (now : Time) (l : Limiter fl ops)
      → counted (check_block fl ops config key now l).0
        ≡ counted l + decides_step (check_block fl ops config key now l).1
  unfolding check_block
  check_block-counted config key now l = ground arith

  check_bot-counted :
      (config : Config fl) (key : Text) (r : Request fl) (l : Limiter fl ops)
      → counted (check_bot fl ops config key r l).0
        ≡ counted l + decides_step (check_bot fl ops config key r l).1
  unfolding check_bot
  check_bot-counted config key r l = ground arith

  check_rate-counted :
      (config : Config fl) (key : Text) (limits : Limits fl) (now : Time) (l : Limiter fl ops)
      → counted (check_rate fl ops config key limits now l).0
        ≡ counted l + decides_step (check_rate fl ops config key limits now l).1
  unfolding check_rate
  check_rate-counted config key limits now l = ground arith

  check_body-counted :
      (config : Config fl) (r : Request fl) (l : Limiter fl ops)
      → counted l ≡ counted l + decides_step (check_body fl ops config r)
  unfolding check_body
  check_body-counted config r l = ground arith

  serve-counted :
      (key : Text) (limits : Limits fl) (l : Limiter fl ops)
      → counted (serve fl ops key limits l).0 ≡ counted l + decides (serve fl ops key limits l).1
  unfolding serve
  serve-counted key limits l = ground arith

  -- Whatever the backend answers, the counters of allowed, blocked and bot requests together grow by
  -- one for a request that is served, limited, blocked or taken for a bot, and stay as they are for
  -- one that ends with an error of the client or of the backend.
  pub handle-counted :
      (config : Config fl) (rule : Option (CompiledRule fl)) (clock : Clock) (r : Request fl)
      (l : Limiter fl ops)
      → counted (handle fl ops config rule clock r l).0
        ≡ counted l + decides (handle fl ops config rule clock r l).1
  unfolding handle check_attack
  handle-counted config rule clock r l =
      let key = limit_key fl ops config r in
      let limits = get_rate_limits fl config rule r in
      and_then-counted l (l, check_body fl ops config r) _ (check_body-counted config r l)
        (λ l₀.
          and_then-counted l₀ (check_global fl ops config l₀) _ (check_global-counted config l₀)
            (λ l₁.
              and_then-counted l₁
                (check_block fl ops config key clock.checked
                  (check_attack fl ops clock.recorded l₁))
                _
                (check_block-counted config key clock.checked
                  (check_attack fl ops clock.recorded l₁))
                (λ l₂.
                  and_then-counted l₂ (check_bot fl ops config key r l₂) _
                    (check_bot-counted config key r l₂)
                    (λ l₃.
                      and_then-counted l₃ (check_rate fl ops config key limits clock.punished l₃) _
                        (check_rate-counted config key limits clock.punished l₃)
                        (λ l₄. serve-counted key limits l₄)))))
