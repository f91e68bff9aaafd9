-- ===== src/Sdk.antt =====
-- The Go client: middleware/sdk/go/client.go and middleware/sdk/go/middleware.go. What becomes of an
-- HTTP request is an argument.
pub mod Endpoint
mod Tests
use open_source.Common.{
  ℕ, Bool, true, false, not, List, [], ◌∷◌, Option, none, some, if◌then◌else◌, ◌==◌, ◌++◌, Text,
  codes, is_empty,
}
use open_source.Common.Int.{ℤ}
use open_source.Check.{CheckRequest, CheckResponse}

pub record Client : Type 0 where
  pub base_url : Text
  pub api_key : Text
  pub service_id : Text

-- How a POST ends: there is no request for the url, or no answer, or one with a status and a body,
-- which package json reads as a response or not at all.
pub data Sent : Type 0 where
  no_request unreachable : Sent
  answered : (status : ℕ) → Option CheckResponse → Sent

-- The errors of Check.
pub data CheckError : Type 0 where
  cannot_create limiter_unreachable cannot_decode : CheckError
  unexpected_status : ℕ → CheckError

pub data Checked : Type 0 where
  check_failed : CheckError → Checked
  result : CheckResponse → Checked

-- The server behind the url, with a state of its own.
pub record Transport : Type 1 where
  pub State : Type 0
  pub post : (url api_key : Text) → CheckRequest → State → State × Sent

-- A request that reaches the middleware, as far as it is read.
pub record Incoming : Type 0 where
  pub path : Text
  pub user_agent : Text
  pub accept : Text
  pub forwarded_for : Text  -- X-Forwarded-For
  pub real_ip : Text  -- X-Real-Ip
  pub remote_addr : Text

-- net.SplitHostPort, with none for an error, and strings.TrimSpace
pub record Hosts : Type 0 where
  pub split_host_port : Text → Option Text
  pub trim_space : Text → Text

pub data Outcome : Type 0 where
  served : (marked : Bool) → Outcome  -- by the next handler, with X-RateLimit-Status or without
  refused : (status : ℕ) (retry_after : ℤ) (reason : Text) → Outcome

-- `s[:i]` for the index of the first comma, where there is one
unfoldable pub before_comma : Text → Option Text
before_comma [] = none
before_comma (c ∷ s) =
    let rest = before_comma s in
    if c == b',' then some [] else elim rest [ none ↦ none | some start ↦ some (c ∷ start) ]

unfoldable pub get_client_ip : Hosts → Incoming → Text
unfolding before_comma
get_client_ip hosts r =
    if not (is_empty r.forwarded_for)
    then elim (before_comma r.forwarded_for) [
      | some first ↦ hosts.trim_space first
      | none ↦ r.forwarded_for
    ]
    else if not (is_empty r.real_ip)
    then r.real_ip
    else elim (hosts.split_host_port r.remote_addr) [ none ↦ r.remote_addr | some host ↦ host ]

unfoldable pub read_answer : Sent → Checked
read_answer no_request = check_failed cannot_create
read_answer unreachable = check_failed limiter_unreachable
read_answer (answered status body) =
    if status == 200
    then elim body [ none ↦ check_failed cannot_decode | some response ↦ result response ]
    else check_failed (unexpected_status status)

-- The body of a check, without a user.
abbrev pub check_request : Client → (endpoint ip : Text) → List (Text × Text) → CheckRequest
check_request c endpoint ip headers = record {
  service_id = c.service_id;
  endpoint = endpoint;
  ip = ip;
  user_id = [];
  headers = headers;
}

unfoldable pub respond : Checked → Outcome
respond (check_failed _) = served false
respond (result response) =
    if response.allowed
    then served true
    else refused (if response.blocked then 403 else 429) response.retry_after response.reason

module _ (net : Transport) where
  open net use {State, post}

  unfoldable pub check :
      Client → (endpoint ip : Text) → List (Text × Text) → State → State × Checked
  unfolding read_answer
  check c endpoint ip headers s =
      let (s', sent) =
        post (c.base_url ++ codes "/check") c.api_key (check_request c endpoint ip headers) s in
      (s', read_answer sent)

  -- none is an error
  unfoldable pub is_allowed : Client → (endpoint ip : Text) → State → State × Option Bool
  unfolding check
  is_allowed c endpoint ip s =
      let (s', found) = check c endpoint ip [] s in
      elim found [ check_failed _ ↦ (s', none) | result response ↦ (s', some response.allowed) ]

  unfoldable pub middleware : Hosts → Client → Incoming → State → State × Outcome
  unfolding check get_client_ip respond
  middleware hosts c r s =
      let (s', found) =
        check c r.path (get_client_ip hosts r)
          ((codes "User-Agent", r.user_agent) ∷ (codes "Accept", r.accept) ∷ []) s in
      (s', respond found)
