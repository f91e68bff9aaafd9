-- ===== src/Registry/Apis.antt =====
-- The methods of FileRegistry of middleware/storage/file/registry.go on whole APIs. The two readings
-- of the clock of a change are arguments.
use open_source.Common.{
  List, [], ◌∷◌, Option, none, some, if◌then◌else◌, is_some, ◌==◌, map, Text, codes, is_empty,
  has_prefix, lookup, insert, delete,
}
use open_source.Common.GoTime.{Time}
use open_source.Common.Float.{Float64}
use open_source.Registry.Api.{ApiRegistration, ApiUpdateRequest, RuleChangeEvent, no_data, of_api}
use open_source.Registry.Store.{
  Answer, returned, failed, api_exists, api_not_found, upstream_required, Faults, Json,
  FileRegistry, finish_change,
}

-- `if s != "" { t = s }`
abbrev pub or_else : Text → Text → Text
or_else s t = if is_empty s then t else s

abbrev pub or_kept {ℓ} : {A : Type ℓ} → Option A → A → A
or_kept o a = elim o [ none ↦ a | some b ↦ b ]

-- A base path with a slash in front.
unfoldable pub rooted : Text → Text
rooted path = if has_prefix path (codes "/") then path else b'/' ∷ path

module _ (fl : Float64) where
  -- The defaults of `RegisterAPI`.
  unfoldable pub with_defaults : Time → ApiRegistration fl → ApiRegistration fl
  unfolding rooted
  with_defaults now api = record api {
    created_at = if api.created_at == 0 then now else api.created_at;
    updated_at = now;
    status = or_else api.status (codes "active");
    base_path = if is_empty api.base_path then api.base_path else rooted api.base_path;
  }

  -- The updates that `UpdateAPI` applies.
  unfoldable pub updated : Time → ApiUpdateRequest fl → ApiRegistration fl → ApiRegistration fl
  unfolding rooted
  updated now req api = record api {
    name = or_else req.name api.name;
    description = or_else req.description api.description;
    upstream_url = or_else req.upstream_url api.upstream_url;
    base_path = if is_empty req.base_path then api.base_path else rooted req.base_path;
    default_limits = or_kept req.default_limits api.default_limits;
    status = or_else req.status api.status;
    tags = elim req.tags [ none ↦ api.tags | some tags ↦ some tags ];
    metadata = elim req.metadata [ none ↦ api.metadata | some metadata ↦ some metadata ];
    updated_at = now;
  }

  abbrev pub event : Text → Text → Time → RuleChangeEvent fl
  event kind id timestamp = record {
    kind = kind;
    api_id = id;
    endpoint_id = [];
    timestamp = timestamp;
    carried = no_data;
  }

module _ (fl : Float64) (json : Json fl) where
  unfoldable pub register_api :
      Faults
      → Time
      → ApiRegistration fl
      → FileRegistry fl json
      → FileRegistry fl json × Answer (Unit {0})
  register_api faults now api f =
      let api' = with_defaults fl now api in
      if is_some (lookup api.id f.apis)
      then (f, failed (api_exists api.id))
      else if is_empty api.upstream_url
      then (f, failed upstream_required)
      else finish_change fl json faults (λ g. record g { apis = delete api.id g.apis })
          (record (event fl (codes "created") api.id now) { carried = of_api api' })
          (record f { apis = insert api.id api' f.apis })

  unfoldable pub get_api : Text → FileRegistry fl json → Answer (ApiRegistration fl)
  get_api id f = elim (lookup id f.apis) [
    | none ↦ failed (api_not_found id)
    | some api ↦ returned api
  ]

  -- A failed save is not undone.
  unfoldable pub update_api :
      Faults
      → (now told : Time) → Text
      → ApiUpdateRequest fl
      → FileRegistry fl json
      → FileRegistry fl json × Answer (Unit {0})
  update_api faults now told id req f = elim (lookup id f.apis) [
    | none ↦ (f, failed (api_not_found id))
    | some api ↦
        let api' = updated fl now req api in
        finish_change fl json faults (λ g. g)
          (record (event fl (codes "updated") id told) { carried = of_api api' })
          (record f { apis = insert id api' f.apis })
  ]

  unfoldable pub delete_api :
      Faults
      → (told : Time) → Text
      → FileRegistry fl json
      → FileRegistry fl json × Answer (Unit {0})
  delete_api faults told id f =
      if is_some (lookup id f.apis)
      then finish_change fl json faults (λ g. g) (event fl (codes "deleted") id told)
          (record f { apis = delete id f.apis })
      else (f, failed (api_not_found id))

  unfoldable pub export_all : FileRegistry fl json → List (ApiRegistration fl)
  export_all f = map (λ e. e.1) f.apis
