-- ===== src/Registry/Undo.antt =====
-- What a change of FileRegistry of middleware/storage/file/registry.go leaves behind when it fails.
use open_source.Common.{
  ◌≡◌, refl, ap, sym, ◌∙◌, ◌⊎◌, inl, inr, false, List, none, some, arith, if◌then◌else◌, Bool-cases,
  Option-cases, map, codes, Text, text_eq, text_eq_iff, is_empty, lookup, insert, delete, Keyed,
  lookup-insert, lookup-insert_self, lookup-delete, insert-Keyed,
}
use open_source.Common.GoTime.{Time}
use open_source.Common.Float.{Float64}
use open_source.Registry.Api.{ApiRegistration, ApiUpdateRequest, RuleChangeEvent, of_api}
use open_source.Registry.Store.{
  Answer, returned, failed, Faults, RegistryError, api_exists, api_not_found, upstream_required,
  Json, FileRegistry, publish_change, finish_change,
}
use open_source.Registry.Apis.{
  event, with_defaults, updated, register_api, get_api, update_api, delete_api,
}
use open_source.Registry.Durable.{content}
use open_source.Registry.Saves.{
  saved, finish_change-cases, finish_change-undone, publish_change-Published,
}

module _ (fl : Float64) (json : Json fl) where
  -- Both maps hold the same under every id.
  abbrev pub Same : FileRegistry fl json → FileRegistry fl json → Type 0
  Same g f = (j : Text) → lookup j g.apis ≡ lookup j f.apis

  delete-insert :
      (k j : Text) (api : ApiRegistration fl) (m : List (Text × ApiRegistration fl))
      → Keyed m
      → lookup k m ≡ none
      → lookup j (delete k (insert k api m)) ≡ lookup j m
  delete-insert k j api m keyed h = ground (
    arith,
    lookup-delete k j (insert k api m) (insert-Keyed k api m keyed),
    lookup-insert k j api m,
    text_eq_iff k j,
  )

  -- What `RegisterAPI` leaves behind: the API, in the map and in the file, or nothing.
  pub record Registered (api : ApiRegistration fl) (f g : FileRegistry fl json) : Type 0 where
    pub found :
        (j : Text) → lookup j g.apis ≡ (if text_eq api.id j then some api else lookup j f.apis)
    pub file : g.file ≡ some (content fl json g)

  abbrev pub AllOrNothing :
      ApiRegistration fl → FileRegistry fl json → FileRegistry fl json × Answer (Unit {0}) → Type 0
  AllOrNothing api f r =
      ((r.1 ≡ returned tt) × Registered api f r.0)
      ⊎ ((e : RegistryError) × (r.1 ≡ failed e) × (r.0.file ≡ f.file) × Same r.0 f)

  published-Registered :
      (api : ApiRegistration fl) (event : RuleChangeEvent fl) (f : FileRegistry fl json)
      → f.closed ≡ false
      → let r =
          publish_change fl json event
            (saved fl json (record f { apis = insert api.id api f.apis })) in
        (r.1 ≡ returned tt) × Registered api f r.0
  unfolding get_api
  published-Registered api event f opened =
      let put = record f { apis = insert api.id api f.apis } in
      let p = publish_change-Published fl json event (saved fl json put) in
      (
        p.answer ∙ rw opened,
        record {
          found = λ j. ap (lookup j) p.apis ∙ lookup-insert api.id j api f.apis;
          file = p.file ∙ ap (λ m. some (json.marshal (map (λ e. e.1) m))) (sym p.apis);
        },
      )

  -- `RegisterAPI` refuses at once, or changes the map and saves.
  pub register_api-refused :
      (faults : Faults) (now : Time) (api : ApiRegistration fl) (f : FileRegistry fl json)
      → ((e : RegistryError) × (register_api fl json faults now api f ≡ (f, failed e)))
        ⊎ ((lookup api.id f.apis ≡ none)
            × (register_api fl json faults now api f
                ≡ finish_change fl json faults
                    (λ g. record g { apis = delete api.id g.apis })
                    (record (event fl (codes "created") api.id now) {
                      carried = of_api (with_defaults fl now api);
                    })
                    (record f { apis = insert api.id (with_defaults fl now api) f.apis })))
  unfolding register_api
  register_api-refused faults now api f = elim (Option-cases (lookup api.id f.apis)) [
    | inr (old, hit) ↦ inl (api_exists api.id, rw (hit, register_api) refl)
    | inl miss ↦ elim (Bool-cases (is_empty api.upstream_url)) [
      | inl blank ↦ inl (upstream_required, rw (miss, register_api) (rw blank refl))
      | inr given ↦ inr (miss, rw (miss, register_api) (rw given refl))
    ]
  ]

  -- On an open registry that has each id once, `RegisterAPI` either returns no error, with the
  -- API and its defaults in the map and the whole map in the file and nothing else changed in the
  -- map, or it returns an error, with the file as it was and the map holding under every id what
  -- it held.
  pub register_api-AllOrNothing :
      (faults : Faults) (now : Time) (api : ApiRegistration fl) (f : FileRegistry fl json)
      → f.closed ≡ false
      → Keyed f.apis
      → AllOrNothing (with_defaults fl now api) f (register_api fl json faults now api f)
  unfolding with_defaults
  register_api-AllOrNothing faults now api f opened keyed =
      let api' = with_defaults fl now api in
      let told = record (event fl (codes "created") api.id now) { carried = of_api api' } in
      let undo : FileRegistry fl json → FileRegistry fl json =
        λ g. record g { apis = delete api.id g.apis } in
      elim (register_api-refused faults now api f) [
        | inl (e, refused) ↦ rw refused (inr (e, refl, refl, λ j. refl))
        | inr (miss, accepted) ↦
            elim (finish_change-cases fl json faults undo told
              (record f { apis = insert api.id api' f.apis })) [
                | inl (e, undone) ↦
                    rw (accepted ∙ undone)
                      (inr (e, refl, refl, λ j. delete-insert api.id j api' f.apis keyed miss))
                | inr published ↦
                    rw (accepted ∙ published) (inl (published-Registered api' told f opened))
              ]
      ]

  update_api-found :
      (faults : Faults) (now told : Time) (id : Text) (req : ApiUpdateRequest fl)
      (f : FileRegistry fl json) (api : ApiRegistration fl)
      → lookup id f.apis ≡ some api
      → let api' = updated fl now req api in
        update_api fl json faults now told id req f
        ≡ finish_change fl json faults
            (λ g. g)
            (record (event fl (codes "updated") id told) { carried = of_api api' })
            (record f { apis = insert id api' f.apis })
  unfolding update_api
  update_api-found faults now told id req f api hit = rw (hit, update_api) refl

  -- A failed save does not undo `UpdateAPI`: of an API that is there, a call that returns an error has
  -- left the file as it was and the updates in the map, where `GetAPI` finds them.
  update_api-not_undone :
      (faults : Faults) (now told : Time) (id : Text) (req : ApiUpdateRequest fl)
      (f : FileRegistry fl json) (api : ApiRegistration fl) (e : RegistryError)
      → lookup id f.apis ≡ some api
      → (update_api fl json faults now told id req f).1 ≡ failed e
      → let g = (update_api fl json faults now told id req f).0 in
        (get_api fl json id g ≡ returned (updated fl now req api)) × (g.file ≡ f.file)
  unfolding get_api
  update_api-not_undone faults now told id req f api e hit h =
      let api' = updated fl now req api in
      let told_of = record (event fl (codes "updated") id told) { carried = of_api api' } in
      let changed = record f { apis = insert id api' f.apis } in
      let does : update_api fl json faults now told id req f
          ≡ finish_change fl json faults (λ g. g) told_of changed =
        update_api-found faults now told id req f api hit in
      let kept =
        finish_change-undone fl json faults (λ g. g) told_of changed e
          (ap (λ r. r.1) (sym does) ∙ h) in
      rw does (rw kept (rw (lookup-insert_self id api' f.apis, get_api) (refl, refl)))

  delete_api-found :
      (faults : Faults) (told : Time) (id : Text) (f : FileRegistry fl json)
      (api : ApiRegistration fl)
      → lookup id f.apis ≡ some api
      → delete_api fl json faults told id f
        ≡ finish_change fl json faults
            (λ g. g)
            (event fl (codes "deleted") id told)
            (record f { apis = delete id f.apis })
  unfolding delete_api
  delete_api-found faults told id f api hit = rw (hit, delete_api) refl

  -- A failed save does not undo `DeleteAPI`: on a registry that has each id once, a call that
  -- returns an error has taken an API that was there out of the map, and left the file as it was.
  delete_api-not_undone :
      (faults : Faults) (told : Time) (id : Text) (f : FileRegistry fl json)
      (api : ApiRegistration fl) (e : RegistryError)
      → Keyed f.apis
      → lookup id f.apis ≡ some api
      → (delete_api fl json faults told id f).1 ≡ failed e
      → let g = (delete_api fl json faults told id f).0 in
        (get_api fl json id g ≡ failed (api_not_found id)) × (g.file ≡ f.file)
  unfolding get_api
  delete_api-not_undone faults told id f api e keyed hit h =
      let told_of = event fl (codes "deleted") id told in
      let changed = record f { apis = delete id f.apis } in
      let does = delete_api-found faults told id f api hit in
      let kept =
        finish_change-undone fl json faults (λ g. g) told_of changed e
          (ap (λ r. r.1) (sym does) ∙ h) in
      let gone : lookup id (delete id f.apis) ≡ none =
        ground (arith, lookup-delete id id f.apis keyed, text_eq_iff id id) in
      rw does (rw kept (rw (gone, get_api) (refl, refl)))
