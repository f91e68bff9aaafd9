-- ===== src/Registry/Changes.antt =====
-- Any sequence of calls of FileRegistry of middleware/storage/file/registry.go.
use open_source.Common.{
  ◌≤◌, ◌≡◌, refl, inl, inr, Bool, true, false, List, [], ◌∷◌, some, arith, if◌then◌else◌, length,
  length-append, Bool-cases, Option-cases, Text, text_eq_iff, lookup, insert, delete, Keyed,
  insert-Keyed, delete-Keyed,
}
use open_source.Common.GoTime.{Time}
use open_source.Common.Float.{Float64}
use open_source.Registry.Api.{
  ApiRegistration, ApiUpdateRequest, Endpoint, EndpointUpdateRequest, RuleChangeEvent,
}
use open_source.Registry.Store.{
  Faults, Json, FileRegistry, load_into, publish_change, finish_change, read_file,
}
use open_source.Registry.Apis.{with_defaults, updated, register_api, update_api, delete_api}
use open_source.Registry.Endpoints.{add_endpoint, update_endpoint, remove_endpoint}
use open_source.Registry.Durable.{Own}
use open_source.Registry.Undo.{register_api-refused}
use open_source.Registry.Saves.{saved, finish_change-cases}

module _ (fl : Float64) where
  lookup-Own :
      (k : Text) (m : List (Text × ApiRegistration fl)) (api : ApiRegistration fl)
      → Own fl m
      → lookup k m ≡ some api
      → api.id ≡ k
  unfolding lookup
  lookup-Own k [] api own h = ground arith
  lookup-Own k ((j, a) ∷ m) api own h = ground (arith, lookup-Own k m api, text_eq_iff j k)

  insert-Own :
      (k : Text) (api : ApiRegistration fl) (m : List (Text × ApiRegistration fl))
      → Own fl m
      → api.id ≡ k
      → Own fl (insert k api m)
  unfolding insert
  insert-Own k api [] own h = (h, tt)
  insert-Own k api ((j, a) ∷ m) own h = ground (arith, insert-Own k api m)

  delete-Own : (k : Text) (m : List (Text × ApiRegistration fl)) → Own fl m → Own fl (delete k m)
  unfolding delete
  delete-Own k [] own = tt
  delete-Own k ((j, a) ∷ m) own = ground (arith, delete-Own k m)

  load_into-Own :
      (apis : List (ApiRegistration fl)) (m : List (Text × ApiRegistration fl))
      → Keyed m
      → Own fl m
      → Keyed (load_into fl apis m) × Own fl (load_into fl apis m)
  unfolding load_into
  load_into-Own [] m keyed own = (keyed, own)
  load_into-Own (api ∷ apis) m keyed own =
      load_into-Own apis (insert api.id api m) (insert-Keyed api.id api m keyed)
        (insert-Own api.id api m own refl)

module _ (fl : Float64) (json : Json fl) where
  -- Each API stands once, under its own id, and the channel holds at most its 100 events.
  pub record Sound (f : FileRegistry fl json) : Type 0 where
    pub keyed : Keyed f.apis
    pub own : Own fl f.apis
    pub few : length f.changes ≤ 100

  -- The state that a call leaves is sound.
  pub record Ends {A : Type 0} (r : FileRegistry fl json × A) : Type 0 where
    pub sound : Sound r.0

  pub publish_change-Sound :
      (event : RuleChangeEvent fl) (f : FileRegistry fl json)
      → Sound f
      → Sound (publish_change fl json event f).0
  unfolding publish_change
  publish_change-Sound event f s = ground (arith, length-append f.changes (event ∷ []))

  put-Sound :
      (k : Text) (api : ApiRegistration fl) (f : FileRegistry fl json)
      → Sound f
      → api.id ≡ k
      → Sound (record f { apis = insert k api f.apis })
  put-Sound k api f s h = record {
    keyed = insert-Keyed k api f.apis s.keyed;
    own = insert-Own fl k api f.apis s.own h;
    few = s.few;
  }

  drop-Sound :
      (k : Text) (f : FileRegistry fl json) → Sound f → Sound (record f { apis = delete k f.apis })
  drop-Sound k f s = record {
    keyed = delete-Keyed k f.apis s.keyed;
    own = delete-Own fl k f.apis s.own;
    few = s.few;
  }

  finish_change-Sound :
      (faults : Faults) (undo : FileRegistry fl json → FileRegistry fl json)
      (event : RuleChangeEvent fl) (f : FileRegistry fl json)
      → Sound f
      → Sound (undo f)
      → Ends (finish_change fl json faults undo event f)
  finish_change-Sound faults undo event f s u =
      elim (finish_change-cases fl json faults undo event f) [
        | inl (e, undone) ↦ rw undone (record { sound = u })
        | inr published ↦ rw published (record {
          sound =
              publish_change-Sound event (saved fl json f)
                (record { keyed = s.keyed; own = s.own; few = s.few });
        })
      ]

  -- Both ways of a test.
  pub either_way :
      {A : Type 0} (b : Bool) (x y : FileRegistry fl json × A)
      → Ends x
      → Ends y
      → Ends (if b then x else y)
  either_way true x y sx sy = sx
  either_way false x y sx sy = sy

  pub register_api-Sound :
      (faults : Faults) (now : Time) (api : ApiRegistration fl) (f : FileRegistry fl json)
      → Sound f
      → Ends (register_api fl json faults now api f)
  unfolding with_defaults
  register_api-Sound faults now api f s =
      let put = put-Sound api.id (with_defaults fl now api) f s refl in
      let undone =
        drop-Sound api.id (record f { apis = insert api.id (with_defaults fl now api) f.apis })
          put in
      elim (register_api-refused fl json faults now api f) [
        | inl (e, refused) ↦ rw refused (record { sound = s })
        | inr (miss, accepted) ↦ rw accepted (finish_change-Sound faults _ _ _ put undone)
      ]

  pub update_api-Sound :
      (faults : Faults) (now told : Time) (id : Text) (req : ApiUpdateRequest fl)
      (f : FileRegistry fl json)
      → Sound f
      → Ends (update_api fl json faults now told id req f)
  unfolding update_api updated
  update_api-Sound faults now told id req f s = elim (Option-cases (lookup id f.apis)) [
    | inl miss ↦ rw (miss, update_api) (record { sound = s })
    | inr (api, hit) ↦
        let put =
          put-Sound id (updated fl now req api) f s (lookup-Own fl id f.apis api s.own hit) in
        rw (hit, update_api) (finish_change-Sound faults _ _ _ put put)
  ]

  pub delete_api-Sound :
      (faults : Faults) (told : Time) (id : Text) (f : FileRegistry fl json)
      → Sound f
      → Ends (delete_api fl json faults told id f)
  unfolding delete_api
  delete_api-Sound faults told id f s =
      let dropped = drop-Sound id f s in
      either_way _ _ _ (finish_change-Sound faults _ _ _ dropped dropped) (record { sound = s })

  pub add_endpoint-Sound :
      (faults : Faults) (now told : Time) (id : Text) (ep : Endpoint fl) (f : FileRegistry fl json)
      → Sound f
      → Ends (add_endpoint fl json faults now told id ep f)
  unfolding add_endpoint
  add_endpoint-Sound faults now told id ep f s = elim (Option-cases (lookup id f.apis)) [
    | inl miss ↦ rw (miss, add_endpoint) (record { sound = s })
    | inr (api, hit) ↦
        let own = lookup-Own fl id f.apis api s.own hit in
        let put = put-Sound id _ f s own in
        rw (hit, add_endpoint)
          (either_way _ _ _ (record { sound = s })
            (finish_change-Sound faults _ _ _ put (put-Sound id _ _ put own)))
  ]

  pub update_endpoint-Sound :
      (faults : Faults) (now told : Time) (id endpoint_id : Text) (req : EndpointUpdateRequest fl)
      (f : FileRegistry fl json)
      → Sound f
      → Ends (update_endpoint fl json faults now told id endpoint_id req f)
  unfolding update_endpoint
  update_endpoint-Sound faults now told id endpoint_id req f s =
      elim (Option-cases (lookup id f.apis)) [
        | inl miss ↦ rw (miss, update_endpoint) (record { sound = s })
        | inr (api, hit) ↦
            let put = put-Sound id _ f s (lookup-Own fl id f.apis api s.own hit) in
            rw (hit, update_endpoint)
              (either_way _ _ _ (finish_change-Sound faults _ _ _ put put) (record { sound = s }))
      ]

  pub remove_endpoint-Sound :
      (faults : Faults) (now told : Time) (id endpoint_id : Text) (f : FileRegistry fl json)
      → Sound f
      → Ends (remove_endpoint fl json faults now told id endpoint_id f)
  unfolding remove_endpoint
  remove_endpoint-Sound faults now told id endpoint_id f s =
      elim (Option-cases (lookup id f.apis)) [
        | inl miss ↦ rw (miss, remove_endpoint) (record { sound = s })
        | inr (api, hit) ↦
            let put = put-Sound id _ f s (lookup-Own fl id f.apis api s.own hit) in
            rw (hit, remove_endpoint)
              (either_way _ _ _ (finish_change-Sound faults _ _ _ put put) (record { sound = s }))
      ]

  pub read_file-Sound :
      (faults : Faults) (f : FileRegistry fl json) → Sound f → Sound (read_file fl json faults f).0
  unfolding read_file
  read_file-Sound faults f s = elim (Option-cases f.file) [
    | inl absent ↦ rw (absent, read_file) s
    | inr (c, there) ↦ elim (Bool-cases faults.read_fails) [
      | inl fails ↦ rw (there, read_file) (rw fails s)
      | inr reads ↦ elim (Option-cases (json.unmarshal c)) [
        | inl bad ↦ rw (there, read_file) (rw reads (rw bad s))
        | inr (apis, parsed) ↦
            let (keyed, own) = load_into-Own fl apis f.apis s.keyed s.own in
            rw (there, read_file)
              (rw reads (rw parsed (record { keyed = keyed; own = own; few = s.few })))
      ]
    ]
  ]
