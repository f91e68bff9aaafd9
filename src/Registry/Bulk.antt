-- ===== src/Registry/Bulk.antt =====
-- BulkImport of FileRegistry of middleware/storage/file/registry.go.
use open_source.Common.{
  ℕ, ◌+◌, Bool, List, [], ◌∷◌, ◌++◌, some, if◌then◌else◌, ◌&&◌, not, is_some, Text, lookup,
}
use open_source.Common.GoTime.{Time}
use open_source.Common.Float.{Float64}
use open_source.Registry.Api.{ApiRegistration, ApiUpdateRequest, BulkImportRequest}
use open_source.Registry.Store.{
  Answer, returned, failed, panicked, blocked_forever, RegistryError, api_exists, Faults, Json,
  FileRegistry,
}
use open_source.Registry.Apis.{register_api, update_api}

-- Each error is the id of the API and what was wrong with it, in the place of its message.
pub record BulkImportResponse : Type 0 where
  pub imported : ℕ
  pub updated : ℕ
  pub failures : ℕ
  pub errors : List (Text × RegistryError)

-- What the system does in one turn of the loop.
pub record Turn : Type 0 where
  pub faults : Faults
  pub now : Time
  pub told : Time

abbrev with_error : Text → RegistryError → BulkImportResponse → BulkImportResponse
with_error id e resp = record resp {
  failures = resp.failures + 1;
  errors = resp.errors ++ (id, e) ∷ [];
}

-- The response after a call for one API; a panic ends the loop.
abbrev after_call :
    Text → Answer (Unit {0}) → BulkImportResponse → BulkImportResponse → Answer BulkImportResponse
after_call id (returned x) done resp = returned done
after_call id (failed e) done resp = returned (with_error id e resp)
after_call id panicked done resp = panicked
after_call id blocked_forever done resp = blocked_forever

module _ (fl : Float64) where
  unfoldable pub update_request : ApiRegistration fl → ApiUpdateRequest fl
  update_request api = record {
    name = api.name;
    description = api.description;
    upstream_url = api.upstream_url;
    base_path = api.base_path;
    default_limits = some api.default_limits;
    status = api.status;
    tags = api.tags;
    metadata = api.metadata;
  }

module _ (fl : Float64) (json : Json fl) where
  -- The body of the loop.
  unfoldable pub import_one :
      Bool
      → Turn
      → ApiRegistration fl
      → FileRegistry fl json
      → BulkImportResponse
      → FileRegistry fl json × Answer BulkImportResponse
  unfolding update_request
  import_one overwrite turn api f resp =
      let exists = is_some (lookup api.id f.apis) in
      if exists && not overwrite
      then (f, returned (with_error api.id (api_exists api.id) resp))
      else if exists
      then (let (f', answer) =
            update_api fl json turn.faults turn.now turn.told api.id (update_request fl api) f in
          (f', after_call api.id answer (record resp { updated = resp.updated + 1 }) resp))
      else let (f', answer) = register_api fl json turn.faults turn.now api f in
        (f', after_call api.id answer (record resp { imported = resp.imported + 1 }) resp)

  -- The n-th turn is `turns n`.
  unfoldable pub import_all :
      Bool
      → (ℕ → Turn)
      → ℕ
      → List (ApiRegistration fl)
      → FileRegistry fl json
      → BulkImportResponse
      → FileRegistry fl json × Answer BulkImportResponse
  unfolding import_one
  import_all overwrite turns n [] f resp = (f, returned resp)
  import_all overwrite turns n (api ∷ apis) f resp =
      let (f', answer) = import_one overwrite (turns n) api f resp in
      elim answer [
        | returned resp' ↦ import_all overwrite turns (n + 1) apis f' resp'
        | failed e ↦ (f', failed e)
        | panicked ↦ (f', panicked)
        | blocked_forever ↦ (f', blocked_forever)
      ]

  unfoldable pub bulk_import :
      (ℕ → Turn)
      → BulkImportRequest fl
      → FileRegistry fl json
      → FileRegistry fl json × Answer BulkImportResponse
  unfolding import_all
  bulk_import turns req f =
      import_all req.overwrite_existing turns 0 req.apis f
        (record { imported = 0; updated = 0; failures = 0; errors = [] })
