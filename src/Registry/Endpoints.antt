-- ===== src/Registry/Endpoints.antt =====
-- The methods of FileRegistry of middleware/storage/file/registry.go on the endpoints of an API.
use open_source.Common.{
  Bool, true, false, List, [], ◌∷◌, ◌++◌, Option, none, some, if◌then◌else◌, is_some, Text, codes,
  text_eq, lookup, insert,
}
use open_source.Common.Int.{pos, ltb_ℤ, leb_ℤ}
use open_source.Common.GoTime.{Time}
use open_source.Common.Float.{Float64}
use open_source.Registry.Api.{
  ApiRegistration, Endpoint, EndpointUpdateRequest, RuleChangeEvent, of_endpoint,
}
use open_source.Registry.Store.{
  Answer, returned, failed, endpoint_exists, endpoint_not_found, api_not_found, Faults, Json,
  FileRegistry, finish_change,
}
use open_source.Registry.Apis.{or_else, or_kept, event}

module _ (fl : Float64) where
  -- The first endpoint with an id.
  unfoldable pub find_endpoint : Text → List (Endpoint fl) → Option (Endpoint fl)
  find_endpoint id [] = none
  find_endpoint id (ep ∷ eps) = if text_eq ep.id id then some ep else find_endpoint id eps

  unfoldable pub without_last : List (Endpoint fl) → List (Endpoint fl)
  without_last [] = []
  without_last (ep ∷ []) = []
  without_last (ep ∷ ep' ∷ eps) = ep ∷ without_last (ep' ∷ eps)

  unfoldable pub endpoint_defaults : Endpoint fl → Endpoint fl
  endpoint_defaults ep = record ep {
    method = or_else ep.method (codes "*");
    priority =
        if leb_ℤ ep.priority (pos 0)
        then (if leb_ℤ (pos 0) ep.priority then pos 100 else ep.priority)
        else ep.priority;
    enabled = true;
  }

  unfoldable pub updated_endpoint : EndpointUpdateRequest fl → Endpoint fl → Endpoint fl
  updated_endpoint req ep = record ep {
    method = or_else req.method ep.method;
    url_pattern = or_else req.url_pattern ep.url_pattern;
    path = or_else req.path ep.path;
    limits = or_kept req.limits ep.limits;
    priority = if ltb_ℤ (pos 0) req.priority then req.priority else ep.priority;
    enabled = or_kept req.enabled ep.enabled;
  }

  -- The loop that updates the first endpoint with an id, and says whether there is one.
  unfoldable pub update_first :
      Text → EndpointUpdateRequest fl → List (Endpoint fl) → List (Endpoint fl) × Bool
  unfolding updated_endpoint
  update_first id req [] = ([], false)
  update_first id req (ep ∷ eps) =
      let (rest, found) = update_first id req eps in
      if text_eq ep.id id then (updated_endpoint req ep ∷ eps, true) else (ep ∷ rest, found)

  -- The loop that keeps the endpoints with other ids, and says whether it left one out.
  unfoldable pub remove_all : Text → List (Endpoint fl) → List (Endpoint fl) × Bool
  remove_all id [] = ([], false)
  remove_all id (ep ∷ eps) =
      let (rest, found) = remove_all id eps in
      if text_eq ep.id id then (rest, true) else (ep ∷ rest, found)

  abbrev pub endpoint_event : Text → Text → Text → Time → RuleChangeEvent fl
  endpoint_event kind api_id endpoint_id timestamp = record (event fl kind api_id timestamp) {
    endpoint_id = endpoint_id;
  }

module _ (fl : Float64) (json : Json fl) where
  abbrev put : Text → ApiRegistration fl → FileRegistry fl json → FileRegistry fl json
  put id api f = record f { apis = insert id api f.apis }

  -- A failed save takes the endpoint off the list again.
  unfoldable pub add_endpoint :
      Faults
      → (now told : Time) → Text
      → Endpoint fl
      → FileRegistry fl json
      → FileRegistry fl json × Answer (Unit {0})
  add_endpoint faults now told api_id endpoint f = elim (lookup api_id f.apis) [
    | none ↦ (f, failed (api_not_found api_id))
    | some api ↦
        let ep = endpoint_defaults fl endpoint in
        let api' = record api { endpoints = api.endpoints ++ ep ∷ []; updated_at = now } in
        if is_some (find_endpoint fl endpoint.id api.endpoints)
        then (f, failed (endpoint_exists endpoint.id))
        else finish_change fl json faults
            (λ g. put api_id (record api' { endpoints = without_last fl api'.endpoints }) g)
            (record (endpoint_event fl (codes "endpoint_added") api_id endpoint.id told) {
              carried = of_endpoint ep;
            })
            (put api_id api' f)
  ]

  unfoldable pub update_endpoint :
      Faults
      → (now told : Time) → (api_id endpoint_id : Text) → EndpointUpdateRequest fl
      → FileRegistry fl json
      → FileRegistry fl json × Answer (Unit {0})
  update_endpoint faults now told api_id endpoint_id req f = elim (lookup api_id f.apis) [
    | none ↦ (f, failed (api_not_found api_id))
    | some api ↦
        let (eps, found) = update_first fl endpoint_id req api.endpoints in
        if found
        then finish_change fl json faults (λ g. g)
            (endpoint_event fl (codes "endpoint_updated") api_id endpoint_id told)
            (put api_id (record api { endpoints = eps; updated_at = now }) f)
        else (f, failed (endpoint_not_found endpoint_id))
  ]

  unfoldable pub remove_endpoint :
      Faults
      → (now told : Time) → (api_id endpoint_id : Text) → FileRegistry fl json
      → FileRegistry fl json × Answer (Unit {0})
  remove_endpoint faults now told api_id endpoint_id f = elim (lookup api_id f.apis) [
    | none ↦ (f, failed (api_not_found api_id))
    | some api ↦
        let (eps, found) = remove_all fl endpoint_id api.endpoints in
        if found
        then finish_change fl json faults (λ g. g)
            (endpoint_event fl (codes "endpoint_removed") api_id endpoint_id told)
            (put api_id (record api { endpoints = eps; updated_at = now }) f)
        else (f, failed (endpoint_not_found endpoint_id))
  ]

  unfoldable pub get_endpoint :
      (api_id endpoint_id : Text) → FileRegistry fl json → Answer (Endpoint fl)
  get_endpoint api_id endpoint_id f = elim (lookup api_id f.apis) [
    | none ↦ failed (api_not_found api_id)
    | some api ↦ elim (find_endpoint fl endpoint_id api.endpoints) [
      | none ↦ failed (endpoint_not_found endpoint_id)
      | some ep ↦ returned ep
    ]
  ]
