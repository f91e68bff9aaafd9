-- ===== src/Pipeline/Bots.antt =====
-- The detection of bots of middleware/routing/middleware.go. The answer is the reason, or none.
use open_source.Common.{
  List, [], ◌∷◌, ◌++◌, Option, none, some, if◌then◌else◌, ◌&&◌, ◌||◌, not, Text, codes, is_empty,
  contains, to_lower,
}
use open_source.Common.Int.{ℤ, pos, ltb_ℤ}
use open_source.Common.Float.{Float64}
use open_source.Configuration.Settings.{
  BotDetectionLevel, Config, detection_none, detection_low, detection_medium, detection_high,
  is_memory,
}
use open_source.Pipeline.Backends.{BackendOps, Request}

abbrev pub bot_signatures : List Text
bot_signatures =
    codes "bot"
    ∷ codes "crawler"
    ∷ codes "spider"
    ∷ codes "scraper"
    ∷ codes "curl"
    ∷ codes "wget"
    ∷ codes "httpclient"
    ∷ codes "python-requests"
    ∷ codes "axios"
    ∷ codes "postman"
    ∷ codes "insomnia"
    ∷ codes "puppeteer"
    ∷ codes "selenium"
    ∷ codes "playwright"
    ∷ codes "headless"
    ∷ codes "phantomjs"
    ∷ codes "slimerjs"
    ∷ []

unfoldable pub find_signature : Text → List Text → Option Text
find_signature ua [] = none
find_signature ua (sig ∷ sigs) =
    if contains ua sig then some (codes "bot_signature:" ++ sig) else find_signature ua sigs

module _ (fl : Float64) where
  unfoldable pub basic_bot_check : Config fl → Request fl → Option Text
  unfolding find_signature
  basic_bot_check config r =
      let ua = to_lower r.user_agent in
      if is_empty ua
      then some (codes "missing_user_agent")
      else find_signature ua (bot_signatures ++ config.additional_bot_signatures)

  -- What the medium check asks of the headers.
  unfoldable pub check_headers : Request fl → Option Text
  check_headers r =
      if is_empty (r.header (codes "Accept")) || is_empty (r.header (codes "Accept-Language"))
      then some (codes "missing_standard_headers")
      else if not (is_empty (r.header (codes "Sec-Fetch-Site")))
          && is_empty (r.header (codes "Sec-Fetch-Mode"))
      then some (codes "incomplete_sec_fetch_headers")
      else if contains r.user_agent (codes "Chrome") && is_empty (r.header (codes "Sec-Ch-Ua"))
      then some (codes "missing_client_hints")
      else none

  unfoldable pub medium_bot_check : Config fl → Request fl → Option Text
  unfolding basic_bot_check check_headers
  medium_bot_check config r = elim (basic_bot_check config r) [
    | some reason ↦ some reason
    | none ↦ check_headers r
  ]

module _ (fl : Float64) (ops : BackendOps fl) where
  open ops use {State}

  -- The group of calls in flight hands each caller the count that one of them reads.
  unfoldable pub aggressive_bot_check : Config fl → Request fl → State → State × Option Text
  aggressive_bot_check config r s = elim (medium_bot_check fl config r) [
    | some reason ↦ (s, some reason)
    | none ↦
        if is_memory config.backend_type
        then (let (s', count) = ops.get_violation_count r.ip s in
            let violations : ℤ = elim count [ none ↦ pos 0 | some n ↦ n ] in
            (s', if ltb_ℤ (pos 5) violations then some (codes "high_violation_count") else none))
        else (s, none)
  ]

  unfoldable pub detect_at :
      BotDetectionLevel → Config fl → Request fl → State → State × Option Text
  unfolding basic_bot_check medium_bot_check aggressive_bot_check
  detect_at detection_none config r s = (s, none)
  detect_at detection_low config r s = (s, basic_bot_check fl config r)
  detect_at detection_medium config r s = (s, medium_bot_check fl config r)
  detect_at detection_high config r s = aggressive_bot_check config r s

  unfoldable pub detect_bot : Config fl → Request fl → State → State × Option Text
  unfolding detect_at
  detect_bot config r s = detect_at config.bot_detection config r s
