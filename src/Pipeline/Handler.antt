-- ===== src/Pipeline/Handler.antt =====
-- The Handler of middleware/routing/middleware.go: one request from its body to the next handler. Of
-- headers, cookies, logs and metrics only what the reply is made of is kept.
use open_source.Common.{
  ℕ, ◌+◌, ◌++◌, Option, none, some, if◌then◌else◌, ◌&&◌, not, Text, codes, is_empty,
}
use open_source.Common.Int.{ℤ, pos, ltb_ℤ, ◌-ℤ◌}
use open_source.Common.GoTime.{Time, Duration}
use open_source.Common.Float.{Float64}
use open_source.Registry.Api.{CompiledRule}
use open_source.Configuration.Settings.{Config}
use open_source.Pipeline.Backends.{BackendOps, Request}
use open_source.Pipeline.Detector.{DistributedAttackDetector, record_request}
use open_source.Pipeline.Limits.{Limits, get_rate_limits, allow_request, is_blocked}
use open_source.Pipeline.Bots.{detect_bot}

-- What the client gets: an error with its status and the time to wait, or the answer of the next
-- handler with what remains of the burst.
pub data Reply : Type 0 where
  bad_request too_large unavailable : Reply
  rate_limited ip_blocked bot_detected : Duration → Reply
  served : (remaining : ℤ) → Reply

-- The readings of the clock in a request.
pub record Clock : Type 0 where
  pub recorded : Time
  pub checked : Time
  pub punished : Time

module _ (fl : Float64) (ops : BackendOps fl) where
  open fl use {Float, of_int, to_int, seconds, times, greater}
  open ops use {State}

  -- The limiter: its backend, its detector and its counters.
  pub record Limiter : Type 0 where
    pub backend : State
    pub detector : DistributedAttackDetector fl
    pub allowed : ℕ
    pub blocked : ℕ
    pub bot_blocked : ℕ
    pub request_count : ℕ

  -- A step that lets the request go on, or ends it with a reply.
  abbrev pub and_then : Limiter × Option Reply → (Limiter → Limiter × Reply) → Limiter × Reply
  and_then (l, none) next = next l
  and_then (l, some reply) next = (l, reply)

  unfoldable pub check_body : Config fl → Request fl → Option Reply
  check_body config r = elim r.body [
    | none ↦ none
    | some none ↦ some bad_request
    | some (some size) ↦
        if ltb_ℤ (pos 0) config.max_request_body_size
          && ltb_ℤ config.max_request_body_size (pos size)
        then some too_large
        else none
  ]

  unfoldable pub limit_key : Config fl → Request fl → Text
  limit_key config r =
      let user_id = r.header config.user_id_header in
      if not (is_empty config.user_id_header)
        && (config.trusted_user_id_header && (r.valid_proxy && not (is_empty user_id)))
      then codes "user:" ++ user_id
      else r.ip

  unfoldable pub check_global : Config fl → Limiter → Limiter × Option Reply
  check_global config l =
      let limit = to_int (times config.global_rate_limit (seconds config.global_window_size)) in
      let (s, answer) =
        ops.allow_sliding_window (codes "global") limit config.global_window_size l.backend in
      let l' = record l { backend = s } in
      if greater config.global_rate_limit (of_int (pos 0))
      then elim answer [
        | none ↦ (l', if config.strict_backend_errors then some unavailable else none)
        | some (allowed, retry_after) ↦
            if allowed
            then (l', none)
            else (record l' { blocked = l.blocked + 1 }, some (rate_limited retry_after))
      ]
      else (l, none)

  unfoldable pub check_attack : Time → Limiter → Limiter
  check_attack now l = record l { detector = (record_request fl now l.detector).0 }

  unfoldable pub check_block : Config fl → Text → Time → Limiter → Limiter × Option Reply
  check_block config key now l =
      let (s, answer) = is_blocked fl ops key now l.backend in
      let l' = record l { backend = s } in
      elim answer.0 [
        | some retry_after ↦ (record l' { blocked = l.blocked + 1 }, some (ip_blocked retry_after))
        | none ↦ (l', if answer.1 && config.strict_backend_errors then some unavailable else none)
      ]

  unfoldable pub check_bot : Config fl → Text → Request fl → Limiter → Limiter × Option Reply
  check_bot config key r l =
      let (s, reason) = detect_bot fl ops config r l.backend in
      elim reason [
        | none ↦ (record l { backend = s }, none)
        | some why ↦ (
          record l {
            backend = (ops.block key config.block_duration s).0;
            bot_blocked = l.bot_blocked + 1;
          },
          some (bot_detected config.block_duration),
        )
      ]

  unfoldable pub check_rate : Config fl → Text → Limits fl → Time → Limiter → Limiter × Option Reply
  check_rate config key limits now l =
      let (s, answer) = allow_request fl ops config key limits now l.backend in
      let l' = record l { backend = s } in
      elim answer [
        | none ↦ (l', if config.strict_backend_errors then some unavailable else none)
        | some (allowed, retry_after) ↦
            if allowed
            then (l', none)
            else (record l' { blocked = l.blocked + 1 }, some (rate_limited retry_after))
      ]

  -- The end of the request: the counters, and what remains, from 0 on.
  unfoldable pub serve : Text → Limits fl → Limiter → Limiter × Reply
  serve key limits l =
      let (s, count) = ops.get_sliding_window_count key limits.window_size l.backend in
      let used : ℕ = elim count [ none ↦ 0 | some n ↦ n ] in
      let remaining = limits.burst -ℤ pos used in
      (
        record l { backend = s; allowed = l.allowed + 1; request_count = l.request_count + 1 },
        served (if ltb_ℤ remaining (pos 0) then pos 0 else remaining),
      )

  unfoldable pub handle :
      Config fl → Option (CompiledRule fl) → Clock → Request fl → Limiter → Limiter × Reply
  handle config rule clock r l =
      let key = limit_key config r in
      let limits = get_rate_limits fl config rule r in
      and_then (l, check_body config r)
        (λ l₀. and_then (check_global config l₀) (λ l₁.
          and_then (check_block config key clock.checked (check_attack clock.recorded l₁)) (λ l₂.
            and_then (check_bot config key r l₂) (λ l₃.
              and_then (check_rate config key limits clock.punished l₃)
                (λ l₄. serve key limits l₄)))))
