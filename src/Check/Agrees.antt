-- ===== src/Check/Agrees.antt =====
-- The check endpoint of middleware/routing/check.go beside the pipeline of
-- middleware/routing/middleware.go.
use open_source.Common.{◌≡◌, refl, List, Option, some, Text, codes}
use open_source.Common.Float.{Float64}
use open_source.Registry.Api.{CompiledRule}
use open_source.Configuration.Settings.{Config, BotDetectionLevel}
use open_source.Pipeline.Backends.{BackendOps, Request}
use open_source.Pipeline.Limits.{Limits, window_limit, allow_request}
use open_source.Pipeline.Limits as Limits
use open_source.Pipeline.Bots.{detect_at}
use open_source.Check.{header_of, get_rate_limits}

module _ (fl : Float64) (ops : BackendOps fl) where
  -- The request of the pipeline has the headers that the check is told of.
  pub record SameHeaders (headers : List (Text × Text)) (r : Request fl) : Type 0 where
    pub agent : r.user_agent ≡ header_of headers (codes "User-Agent")
    pub others : (name : Text) → r.header name ≡ header_of headers name

  -- The pipeline gives a reason.
  abbrev pub IsBot : BotDetectionLevel → Config fl → Request fl → ops.State → Type 0
  IsBot level config r s = (reason : Text) × (detect_at fl ops level config r s ≡ (s, some reason))

  -- The two copies of getRateLimits agree.
  pub get_rate_limits-agrees :
      (config : Config fl) (rule : Option (CompiledRule fl)) (r : Request fl)
      → get_rate_limits fl config rule r.path r.method ≡ Limits.get_rate_limits fl config rule r
  unfolding get_rate_limits Limits.get_rate_limits
  get_rate_limits-agrees config rule r = refl
