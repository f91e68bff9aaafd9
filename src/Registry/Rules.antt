-- ===== src/Registry/Rules.antt =====
-- The rule for a path: GetCompiledRule and its helpers of middleware/storage/file/registry.go, and
-- the list of APIs. Each loop over the map of APIs runs in the order of the list that models it.
use open_source.Common.{
  ℕ, Bool, false, List, [], ◌∷◌, ◌++◌, Option, none, some, ltb, if◌then◌else◌, ◌&&◌, ◌||◌, not,
  ◌==◌, length, drop, take, Text, codes, text_eq, is_empty, has_prefix, strip_prefix, contains,
  to_lower,
}
use open_source.Common.Int.{ℤ, pos, ltb_ℤ, leb_ℤ, pos_part}
use open_source.Common.GoTime.{Duration}
use open_source.Common.Float.{Float64}
use open_source.Registry.Api.{ApiRegistration, Endpoint, CompiledRule, ApiFilter, ApiSummary}
use open_source.Registry.Store.{Json, FileRegistry}

-- `.*` before the rest of an expression: any run of code points but newlines.
unfoldable pub any_run : (Text → Bool) → Text → Bool
any_run rest [] = rest []
any_run rest (x ∷ path) = rest (x ∷ path) || (not (x == 10) && any_run rest path)

-- One code point before the rest of an expression: `.` for a question mark, or itself.
unfoldable pub one_char : ℕ → (Text → Bool) → Text → Bool
one_char c rest [] = false
one_char c rest (x ∷ path) = (if c == b'?' then not (x == 10) else c == x) && rest path

-- The regular expression of `matchesPattern`, from the start of the path to its end.
unfoldable pub glob : Text → Text → Bool
unfolding any_run one_char
glob [] path = is_empty path
glob (c ∷ rest) path = if c == b'*' then any_run (glob rest) path else one_char c (glob rest) path

-- `QuoteMeta` leaves no error for `Compile` to return, so that its fallback is not reached.
unfoldable pub matches_pattern : Text → Text → Bool
unfolding glob
matches_pattern path url_pattern = not (is_empty url_pattern) && glob url_pattern path

-- strings.EqualFold, on the letters A to Z
unfoldable pub equal_fold : Text → Text → Bool
unfolding to_lower
equal_fold s t = text_eq (to_lower s) (to_lower t)

unfoldable pub has_tag : List Text → Text → Bool
unfolding equal_fold
has_tag [] ft = false
has_tag (at ∷ api_tags) ft = equal_fold ft at || has_tag api_tags ft

unfoldable pub has_any_tag : List Text → List Text → Bool
unfolding has_tag
has_any_tag api_tags [] = false
has_any_tag api_tags (ft ∷ filter_tags) = has_tag api_tags ft || has_any_tag api_tags filter_tags

-- The path below a base path, with a slash in front.
unfoldable pub relative_path : Text → Text → Text
relative_path path base_path =
    let rest = strip_prefix path base_path in
    if has_prefix rest (codes "/") then rest else b'/' ∷ rest

module _ (fl : Float64) where
  open fl use {of_int, same}

  unfoldable pub matches_endpoint : Text → Endpoint fl → Bool
  unfolding matches_pattern
  matches_endpoint relative_path ep =
      if not (is_empty ep.url_pattern)
      then matches_pattern relative_path ep.url_pattern
      else not (is_empty ep.path)
        && (text_eq ep.path relative_path || matches_pattern relative_path ep.path)

  abbrev or_default : Duration → Duration → Duration
  or_default d default = if leb_ℤ d (pos 0) && leb_ℤ (pos 0) d then default else d

  unfoldable pub compile_rule : Text → ApiRegistration fl → Endpoint fl → CompiledRule fl
  compile_rule path api ep =
      let rps = ep.limits.requests_per_second in
      record {
        api_id = api.id;
        endpoint_id = ep.id;
        service_id = api.service_id;
        path = path;
        method = ep.method;
        requests_per_second =
            if same rps (of_int (pos 0)) then api.default_limits.requests_per_second else rps;
        burst_size = or_default ep.limits.burst_size api.default_limits.burst_size;
        window_size = or_default ep.limits.window_size api.default_limits.window_size;
        block_duration = or_default ep.limits.block_duration api.default_limits.block_duration;
        use_sliding_window = ep.limits.use_sliding_window;
        priority = ep.priority;
        enabled = ep.enabled;
        upstream_url = api.upstream_url;
      }

  unfoldable pub rules_of_endpoints :
      Text → ApiRegistration fl → List (Endpoint fl) → List (CompiledRule fl)
  unfolding matches_endpoint compile_rule relative_path
  rules_of_endpoints path api [] = []
  rules_of_endpoints path api (ep ∷ eps) =
      let rest = rules_of_endpoints path api eps in
      if ep.enabled && matches_endpoint (relative_path path api.base_path) ep
      then compile_rule path api ep ∷ rest
      else rest

  -- The rules that match a path, from all active APIs.
  unfoldable pub matching_rules : Text → List (Text × ApiRegistration fl) → List (CompiledRule fl)
  unfolding rules_of_endpoints
  matching_rules path [] = []
  matching_rules path ((id, api) ∷ apis) =
      let rest = matching_rules path apis in
      if text_eq api.status (codes "active") && has_prefix path api.base_path
      then rules_of_endpoints path api api.endpoints ++ rest
      else rest

  -- The loop over the other matches.
  unfoldable pub highest : CompiledRule fl → List (CompiledRule fl) → CompiledRule fl
  highest best [] = best
  highest best (rule ∷ rules) =
      if ltb_ℤ best.priority rule.priority
      then highest rule rules
      else if leb_ℤ best.priority rule.priority && ltb (length best.path) (length rule.path)
      then highest rule rules
      else highest best rules

  -- `none` is the rule that says that the path is excluded.
  unfoldable pub get_compiled_rule :
      {json : Json fl} → Text → FileRegistry fl json → Option (CompiledRule fl)
  unfolding matching_rules highest
  get_compiled_rule path f = elim (matching_rules path f.apis) [
    | [] ↦ none
    | rule ∷ rules ↦ some (highest rule rules)
  ]

  -- The conditions of `ListAPIs`.
  unfoldable pub passes : ApiFilter fl → ApiRegistration fl → Bool
  unfolding has_any_tag to_lower contains
  passes filter api =
      (is_empty filter.service_id || text_eq api.service_id filter.service_id)
      && (is_empty filter.status || text_eq api.status filter.status)
      && (is_empty filter.search || contains (to_lower api.name) (to_lower filter.search))
      && (length filter.tags == 0
          || has_any_tag (elim api.tags [ none ↦ [] | some tags ↦ tags ]) filter.tags)

  unfoldable pub summaries : ApiFilter fl → List (Text × ApiRegistration fl) → List (ApiSummary fl)
  unfolding passes
  summaries filter [] = []
  summaries filter ((id, api) ∷ apis) =
      let rest = summaries filter apis in
      if passes filter api
      then record {
        id = id;
        service_id = api.service_id;
        name = api.name;
        base_path = api.base_path;
        upstream_url = api.upstream_url;
        endpoint_count = length api.endpoints;
        status = api.status;
        created_at = api.created_at;
      }
        ∷ rest
      else rest

  -- An offset or a limit that is not positive and below the length changes nothing.
  unfoldable pub paginate : (offset limit : ℤ) → List (ApiSummary fl) → List (ApiSummary fl)
  paginate offset limit found =
      let from_offset =
        if ltb_ℤ (pos 0) offset && ltb_ℤ offset (pos (length found))
        then drop (pos_part offset) found
        else found in
      if ltb_ℤ (pos 0) limit && ltb_ℤ limit (pos (length from_offset))
      then take (pos_part limit) from_offset
      else from_offset

  unfoldable pub list_apis :
      {json : Json fl} → ApiFilter fl → FileRegistry fl json → List (ApiSummary fl)
  list_apis filter f = paginate filter.offset filter.limit (summaries filter f.apis)
