-- ===== src/Sdk/Endpoint.antt =====
-- The middleware of middleware/sdk/go/middleware.go in front of the check endpoint of
-- middleware/routing/check.go. From the level medium on the endpoint wants a header Accept-Language,
-- which the middleware does not send.
use open_source.Common.{◌≡◌, Bool, List, [], ◌∷◌, Option, none, some, Text, codes}
use open_source.Common.GoTime.{Time}
use open_source.Common.Float.{Float64}
use open_source.Address.Extractor.{Net}
use open_source.Registry.Api.{CompiledRule}
use open_source.Configuration.Settings.{Config}
use open_source.Pipeline.Backends.{BackendOps}
use open_source.Check.{
  Answer, invalid_body, fields_missing, backend_error, panicked, checked, check_rate_limit,
}
use open_source.Sdk.{Sent, unreachable, answered, Transport, Incoming}

-- What a client gets of an answer. A panic ends the connection.
abbrev pub sent_of : Answer → Sent
sent_of invalid_body = answered 400 none
sent_of fields_missing = answered 400 none
sent_of backend_error = answered 500 none
sent_of panicked = unreachable
sent_of (checked response) = answered 200 (some response)

-- The headers that the middleware sends.
abbrev pub sent_headers : Incoming → List (Text × Text)
sent_headers r = (codes "User-Agent", r.user_agent) ∷ (codes "Accept", r.accept) ∷ []

module _ (fl : Float64) (ops : BackendOps fl) (net : Net) (config : Config fl)
    (rules : Text → Option (CompiledRule fl)) (now : Time) where
  -- The endpoint as the server behind any url; `rules` gives the rule for a path.
  abbrev pub endpoint : Transport
  endpoint = record {
    State = ops.State;
    post = λ url api_key req s.
        let (s', answer) =
          check_rate_limit fl ops net config (rules req.endpoint) (codes "POST") now (some req) s in
        (s', sent_of answer);
  }

  -- The backend tells of each key whether it is blocked.
  abbrev pub TellsBlocks : ops.State → Type 0
  TellsBlocks s =
      (key : Text)
      → (blocked : Bool) × (until : Time) × ((ops.is_key_blocked key s).1 ≡ some (blocked, until))
