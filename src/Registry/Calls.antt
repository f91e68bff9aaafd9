-- ===== src/Registry/Calls.antt =====
-- Any sequence of calls of FileRegistry of middleware/storage/file/registry.go.
use open_source.Common.{
  ℕ, ◌+◌, ◌≡◌, refl, Bool, List, [], ◌∷◌, Option, none, some, arith, ◌&&◌, not, is_some, Text,
  lookup,
}
use open_source.Common.GoTime.{Time}
use open_source.Common.Float.{Float64}
use open_source.Registry.Api.{
  ApiRegistration, ApiUpdateRequest, Endpoint, EndpointUpdateRequest, RuleChangeEvent,
  BulkImportRequest,
}
use open_source.Registry.Store.{
  Answer, returned, failed, panicked, blocked_forever, Faults, RegistryError, Json, FileRegistry,
  load, answer_of, read_file, publish_change, receive_change, close,
}
use open_source.Registry.Apis.{register_api, update_api, delete_api}
use open_source.Registry.Endpoints.{add_endpoint, update_endpoint, remove_endpoint}
use open_source.Registry.Bulk.{
  Turn, BulkImportResponse, import_one, import_all, bulk_import, update_request,
}
use open_source.Registry.Changes.{
  Sound, Ends, either_way, publish_change-Sound, register_api-Sound, update_api-Sound,
  delete_api-Sound, add_endpoint-Sound, update_endpoint-Sound, remove_endpoint-Sound,
  read_file-Sound,
}

module _ (fl : Float64) where
  -- A call with its arguments, its readings of the clock and what the system does in it.
  pub data Call : Type 0 where
    registers : Faults → Time → ApiRegistration fl → Call
    updates : Faults → (now told : Time) → Text → ApiUpdateRequest fl → Call
    deletes : Faults → Time → Text → Call
    adds : Faults → (now told : Time) → Text → Endpoint fl → Call
    changes_endpoint :
        Faults → (now told : Time) → (api_id endpoint_id : Text) → EndpointUpdateRequest fl → Call
    removes : Faults → (now told : Time) → (api_id endpoint_id : Text) → Call
    imports : (ℕ → Turn) → BulkImportRequest fl → Call
    loads : Faults → Call
    publishes : RuleChangeEvent fl → Call
    receives closes : Call

module _ (fl : Float64) (json : Json fl) where
  unfoldable pub perform : Call fl → FileRegistry fl json → FileRegistry fl json
  perform (registers faults now api) f = (register_api fl json faults now api f).0
  perform (updates faults now told id req) f = (update_api fl json faults now told id req f).0
  perform (deletes faults told id) f = (delete_api fl json faults told id f).0
  perform (adds faults now told id ep) f = (add_endpoint fl json faults now told id ep f).0
  perform (changes_endpoint faults now told id endpoint_id req) f =
      (update_endpoint fl json faults now told id endpoint_id req f).0
  perform (removes faults now told id endpoint_id) f =
      (remove_endpoint fl json faults now told id endpoint_id f).0
  perform (imports turns req) f = (bulk_import fl json turns req f).0
  perform (loads faults) f = (load fl json faults f).0
  perform (publishes event) f = (publish_change fl json event f).0
  perform receives f = (receive_change fl json f).0
  perform closes f = close fl json f

  unfoldable pub perform_all : List (Call fl) → FileRegistry fl json → FileRegistry fl json
  perform_all [] f = f
  perform_all (c ∷ cs) f = perform_all cs (perform c f)

  import_one-Sound :
      (overwrite : Bool) (turn : Turn) (api : ApiRegistration fl) (f : FileRegistry fl json)
      (resp : BulkImportResponse)
      → Sound fl json f
      → Ends fl json (import_one fl json overwrite turn api f resp)
  unfolding import_one
  import_one-Sound overwrite turn api f resp s =
      let updates =
        update_api-Sound fl json turn.faults turn.now turn.told api.id (update_request fl api) f
          s in
      let registers = register_api-Sound fl json turn.faults turn.now api f s in
      either_way fl json (is_some (lookup api.id f.apis) && not overwrite) _ _
        (record { sound = s })
        (either_way fl json (is_some (lookup api.id f.apis)) _ _ (record { sound = updates.sound })
          (record { sound = registers.sound }))

  goes_on :
      {A : Type 0} (next : FileRegistry fl json → A → FileRegistry fl json × Answer A)
      → ((f : FileRegistry fl json) → (a : A) → Sound fl json f → Ends fl json (next f a))
      → (r : FileRegistry fl json × Answer A) → Ends fl json {A = Answer A} r
      → Ends fl json {A = Answer A} (elim r.1 [
        | returned a ↦ next r.0 a
        | failed e ↦ (r.0, failed e)
        | panicked ↦ (r.0, panicked)
        | blocked_forever ↦ (r.0, blocked_forever)
      ])
  goes_on next h (f, returned a) e = h f a e.sound
  goes_on next h (f, failed x) e = record { sound = e.sound }
  goes_on next h (f, panicked) e = record { sound = e.sound }
  goes_on next h (f, blocked_forever) e = record { sound = e.sound }

  import_all-Sound :
      (overwrite : Bool) (turns : ℕ → Turn) (n : ℕ) (apis : List (ApiRegistration fl))
      (f : FileRegistry fl json) (resp : BulkImportResponse)
      → Sound fl json f
      → Ends fl json (import_all fl json overwrite turns n apis f resp)
  unfolding import_all
  import_all-Sound overwrite turns n [] f resp s = record { sound = s }
  import_all-Sound overwrite turns n (api ∷ apis) f resp s =
      goes_on (import_all fl json overwrite turns (n + 1) apis)
        (λ f' resp'. import_all-Sound overwrite turns (n + 1) apis f' resp')
        (import_one fl json overwrite (turns n) api f resp)
        (import_one-Sound overwrite (turns n) api f resp s)

  load-Sound :
      (faults : Faults) (f : FileRegistry fl json)
      → Sound fl json f
      → Ends fl json (load fl json faults f)
  unfolding load
  load-Sound faults f s =
      either_way fl json f.held _ _ (record { sound = s })
        (either_way fl json faults.mkdir_fails _ _ (record { sound = s })
          (answered (read_file fl json faults f) (read_file-Sound fl json faults f s)))
    where
      answered :
          (r : FileRegistry fl json × Option RegistryError)
          → Sound fl json r.0
          → Ends fl json (answer_of fl json r)
      answered (f', none) h = record { sound = h }
      answered (f', some e) h = record { sound = h }

  receive_change-Sound :
      (f : FileRegistry fl json) → Sound fl json f → Sound fl json (receive_change fl json f).0
  unfolding receive_change
  receive_change-Sound f s = taken f.changes refl
    where
      taken :
          (events : List (RuleChangeEvent fl))
          → f.changes ≡ events
          → Sound fl json (receive_change fl json f).0
      taken [] e = rw (e, receive_change) s
      taken (event ∷ rest) e =
          rw (e, receive_change)
            (record { keyed = s.keyed; own = s.own; few = ground (arith, s.few, e) })

  perform-Sound :
      (c : Call fl) (f : FileRegistry fl json) → Sound fl json f → Sound fl json (perform c f)
  unfolding perform bulk_import close
  perform-Sound (registers faults now api) f s =
      (register_api-Sound fl json faults now api f s).sound
  perform-Sound (updates faults now told id req) f s =
      (update_api-Sound fl json faults now told id req f s).sound
  perform-Sound (deletes faults told id) f s = (delete_api-Sound fl json faults told id f s).sound
  perform-Sound (adds faults now told id ep) f s =
      (add_endpoint-Sound fl json faults now told id ep f s).sound
  perform-Sound (changes_endpoint faults now told id endpoint_id req) f s =
      (update_endpoint-Sound fl json faults now told id endpoint_id req f s).sound
  perform-Sound (removes faults now told id endpoint_id) f s =
      (remove_endpoint-Sound fl json faults now told id endpoint_id f s).sound
  perform-Sound (imports turns req) f s =
      (import_all-Sound req.overwrite_existing turns 0 req.apis f _ s).sound
  perform-Sound (loads faults) f s = (load-Sound faults f s).sound
  perform-Sound (publishes event) f s = publish_change-Sound fl json event f s
  perform-Sound receives f s = receive_change-Sound f s
  perform-Sound closes f s = record { keyed = s.keyed; own = s.own; few = s.few }

  -- Whatever calls of the methods that change the registry are made, with whatever errors of the
  -- system: if each API stands once and under its own id, and the channel holds at most 100
  -- events, then this is so after them too. `ReloadRules` is not among the calls.
  pub perform_all-Sound :
      (cs : List (Call fl)) (f : FileRegistry fl json)
      → Sound fl json f
      → Sound fl json (perform_all cs f)
  unfolding perform_all
  perform_all-Sound [] f s = s
  perform_all-Sound (c ∷ cs) f s = perform_all-Sound cs (perform c f) (perform-Sound c f s)
