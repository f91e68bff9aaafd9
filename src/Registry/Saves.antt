-- ===== src/Registry/Saves.antt =====
-- How a change of FileRegistry of middleware/storage/file/registry.go ends.
use open_source.Common.{◌≡◌, ap, ◌∙◌, ◌⊎◌, inl, inr, Bool, some, arith, if◌then◌else◌, Option-cases}
use open_source.Common.Float.{Float64}
use open_source.Registry.Api.{RuleChangeEvent}
use open_source.Registry.Store.{
  Answer, returned, failed, panicked, Faults, RegistryError, Json, FileRegistry, save_locked,
  publish_change, finish_change, after_save,
}
use open_source.Registry.Durable.{content, save_locked-saved}

module _ (fl : Float64) (json : Json fl) where
  save_locked-failed :
      (faults : Faults) (f : FileRegistry fl json) (e : RegistryError)
      → (save_locked fl json faults f).1 ≡ some e
      → save_locked fl json faults f ≡ (f, some e)
  unfolding save_locked
  save_locked-failed faults f e h = ground arith

  abbrev pub saved : FileRegistry fl json → FileRegistry fl json
  saved f = record f { file = some (content fl json f) }

  -- A change ends in an error, undone, or with the map in the file and its event published.
  pub finish_change-cases :
      (faults : Faults) (undo : FileRegistry fl json → FileRegistry fl json)
      (event : RuleChangeEvent fl) (f : FileRegistry fl json)
      → ((e : RegistryError) × (finish_change fl json faults undo event f ≡ (undo f, failed e)))
        ⊎ (finish_change fl json faults undo event f ≡ publish_change fl json event (saved f))
  unfolding finish_change
  finish_change-cases faults undo event f = elim (Option-cases (save_locked fl json faults f).1) [
    | inl none_failed ↦
        inr (ap (after_save fl json undo event) (save_locked-saved fl json faults f none_failed))
    | inr (e, h) ↦ inl (e, ap (after_save fl json undo event) (save_locked-failed faults f e h))
  ]

  -- An event changes neither the map nor the file, and is refused by a closed channel only.
  pub record Published (f : FileRegistry fl json) (r : FileRegistry fl json × Answer (Unit {0}))
      : Type 0 where
    pub apis : r.0.apis ≡ f.apis
    pub file : r.0.file ≡ f.file
    pub closed : r.0.closed ≡ f.closed
    pub answer : r.1 ≡ (if f.closed then panicked else returned tt)

  pub publish_change-Published :
      (event : RuleChangeEvent fl) (f : FileRegistry fl json)
      → Published f (publish_change fl json event f)
  unfolding publish_change
  publish_change-Published event f = ground arith

  answers_apart :
      (b : Bool) (e : RegistryError) {r : Answer (Unit {0})}
      → r ≡ failed e
      → r ≡ (if b then panicked else returned tt)
      → ⊥
  answers_apart b e h k = ground arith

  -- A change that ends in an error has been undone.
  pub finish_change-undone :
      (faults : Faults) (undo : FileRegistry fl json → FileRegistry fl json)
      (event : RuleChangeEvent fl) (f : FileRegistry fl json) (e : RegistryError)
      → (finish_change fl json faults undo event f).1 ≡ failed e
      → (finish_change fl json faults undo event f).0 ≡ undo f
  finish_change-undone faults undo event f e h = elim (finish_change-cases faults undo event f) [
    | inl (e', undone) ↦ ap (λ r. r.0) undone
    | inr published ↦
        let p = publish_change-Published event (saved f) in
        absurd (answers_apart f.closed e h (ap (λ r. r.1) published ∙ p.answer))
  ]
