-- ===== src/Registry/Durable.antt =====
-- What the file of FileRegistry of middleware/storage/file/registry.go holds.
use open_source.Common.{
  ◌≡◌, refl, ap, ◌∙◌, false, List, [], ◌∷◌, none, some, arith, map, Text, text_eq_iff, lookup,
  insert, Keyed, lookup-insert,
}
use open_source.Common.Float.{Float64}
use open_source.Registry.Api.{ApiRegistration}
use open_source.Registry.Store.{
  returned, Faults, Json, FileRegistry, new_file_registry, load_into, load, read_file, save_locked,
  answer_of,
}

-- No call of the system fails.
abbrev pub no_faults : Faults
no_faults = record {
  mkdir_fails = false;
  read_fails = false;
  marshal_fails = false;
  write_fails = false;
  rename_fails = false;
}

module _ (fl : Float64) where
  -- Each API stands under its own id.
  abbrev pub Own : List (Text × ApiRegistration fl) → Type 0
  Own [] = Unit {0}
  Own ((k, api) ∷ m) = (api.id ≡ k) × Own m

  lookup-load_into :
      (k : Text) (m acc : List (Text × ApiRegistration fl))
      → Keyed m
      → Own m
      → lookup k (load_into fl (map (λ e. e.1) m) acc)
        ≡ (elim (lookup k m) [ none ↦ lookup k acc | some api ↦ some api ])
  unfolding load_into lookup
  lookup-load_into k [] acc keyed own = refl
  lookup-load_into k ((j, api) ∷ m) acc keyed own = ground (
    arith,
    lookup-load_into k m (insert api.id api acc),
    lookup-insert api.id k api acc,
    text_eq_iff j k,
    text_eq_iff api.id k,
  )

module _ (fl : Float64) (json : Json fl) where
  -- What the file holds of a registry.
  abbrev pub content : FileRegistry fl json → json.Data
  content f = json.marshal (map (λ e. e.1) f.apis)

  pub save_locked-saved :
      (faults : Faults) (f : FileRegistry fl json)
      → (save_locked fl json faults f).1 ≡ none
      → save_locked fl json faults f ≡ (record f { file = some (content f) }, none)
  unfolding save_locked
  save_locked-saved faults f h = ground arith

  read_file-loaded :
      (c : json.Data) (apis : List (ApiRegistration fl))
      → json.unmarshal c ≡ some apis
      → read_file fl json no_faults (new_file_registry fl json (some c))
        ≡ (record (new_file_registry fl json (some c)) { apis = load_into fl apis [] }, none)
  unfolding read_file new_file_registry
  read_file-loaded c apis h = rw (h, read_file) refl

  load-loaded :
      (c : json.Data) (apis : List (ApiRegistration fl))
      → json.unmarshal c ≡ some apis
      → load fl json no_faults (new_file_registry fl json (some c))
        ≡ (record (new_file_registry fl json (some c)) { apis = load_into fl apis [] }, returned tt)
  unfolding load new_file_registry
  load-loaded c apis h = ap (answer_of fl json) (read_file-loaded c apis h)

  -- Where package json reads back what it wrote, and each API stands once in the map and under
  -- its own id, a save that reports no error has written the whole map: a new registry that loads
  -- the file, with no fault of the system, finds under every id the API that the old one has.
  pub load-save_locked :
      (faults : Faults) (f : FileRegistry fl json)
      → ((apis : List (ApiRegistration fl)) → json.unmarshal (json.marshal apis) ≡ some apis)
      → Keyed f.apis
      → Own fl f.apis
      → (save_locked fl json faults f).1 ≡ none
      → let (g, answer) =
          load fl json no_faults
            (new_file_registry fl json (save_locked fl json faults f).0.file) in
        (answer ≡ returned tt) × ((k : Text) → lookup k g.apis ≡ lookup k f.apis)
  unfolding lookup
  load-save_locked faults f reads keyed own saved =
      let apis = map (λ e. e.1) f.apis in
      let written : (save_locked fl json faults f).0.file ≡ some (json.marshal apis) =
        ap (λ r. r.0.file) (save_locked-saved faults f saved) in
      rw written (
        rw (load-loaded (json.marshal apis) apis (reads apis))
          (refl, λ k. lookup-load_into fl k f.apis [] keyed own ∙ found k))
    where
      found :
          (k : Text)
          → (elim (lookup k f.apis) [ none ↦ none | some api ↦ some api ]) ≡ lookup k f.apis
      found k =
          elim (lookup k f.apis) as (λ o. (elim o [ none ↦ none | some api ↦ some api ]) ≡ o) [
            | none ↦ refl
            | some api ↦ refl
          ]
