-- ===== src/Registry/Store.antt =====
-- FileRegistry of middleware/storage/file/registry.go: its state, its file and its channel. A pointer
-- to an API that the map holds is the API itself. What a caller may change through a pointer that it
-- keeps is left out.
use open_source.Common.{
  Bool, true, false, List, [], ◌∷◌, ◌++◌, Option, none, some, ltb, if◌then◌else◌, length, map, Text,
  insert,
}
use open_source.Common.Float.{Float64}
use open_source.Registry.Api.{ApiRegistration, RuleChangeEvent}

-- The errors that the methods return.
pub data RegistryError : Type 0 where
  api_exists api_not_found endpoint_exists endpoint_not_found : Text → RegistryError
  upstream_required cannot_make_directory cannot_read cannot_parse : RegistryError
  cannot_marshal cannot_write cannot_rename : RegistryError

-- How a call ends.
pub data Answer {ℓ} (A : Type ℓ) : Type ℓ where
  returned : A → Answer A
  failed : RegistryError → Answer A
  panicked blocked_forever : Answer A

-- Which calls of packages os and json fail.
pub record Faults : Type 0 where
  pub mkdir_fails : Bool
  pub read_fails : Bool
  pub marshal_fails : Bool
  pub write_fails : Bool
  pub rename_fails : Bool

-- Package json, on lists of APIs.
pub record Json (fl : Float64) : Type 1 where
  pub Data : Type 0
  pub marshal : List (ApiRegistration fl) → Data
  pub unmarshal : Data → Option (List (ApiRegistration fl))

module _ (fl : Float64) where
  -- `for i := range apis { f.apis[apis[i].ID] = &apis[i] }`
  unfoldable pub load_into :
      List (ApiRegistration fl)
      → List (Text × ApiRegistration fl)
      → List (Text × ApiRegistration fl)
  load_into [] m = m
  load_into (api ∷ apis) m = load_into apis (insert api.id api m)

module _ (fl : Float64) (json : Json fl) where
  open json use {Data, marshal, unmarshal}

  -- `held` says that a call holds the lock of `mu`; `file` is what the file of the registry holds. The
  -- temporary file, which nothing reads, is left out.
  pub record FileRegistry : Type 0 where
    pub apis : List (Text × ApiRegistration fl)
    pub changes : List (RuleChangeEvent fl)
    pub closed : Bool
    pub held : Bool
    pub file : Option Data

  -- A registry over the file that is there.
  unfoldable pub new_file_registry : Option Data → FileRegistry
  new_file_registry file = record {
    apis = [];
    changes = [];
    closed = false;
    held = false;
    file = file;
  }

  unfoldable pub read_file : Faults → FileRegistry → FileRegistry × Option RegistryError
  unfolding load_into
  read_file faults f = elim f.file [
    | none ↦ (f, none)
    | some content ↦ if faults.read_fails then (f, some cannot_read) else elim (unmarshal content) [
      | none ↦ (f, some cannot_parse)
      | some apis ↦ (record f { apis = load_into fl apis f.apis }, none)
    ]
  ]

  -- `return nil` or `return err`
  abbrev pub answer_of : FileRegistry × Option RegistryError → FileRegistry × Answer (Unit {0})
  answer_of (f, none) = (f, returned tt)
  answer_of (f, some e) = (f, failed e)

  -- The call blocks if the lock is held, and the lock of a Go mutex is not reentrant.
  unfoldable pub load : Faults → FileRegistry → FileRegistry × Answer (Unit {0})
  load faults f =
      if f.held
      then (f, blocked_forever)
      else if faults.mkdir_fails
      then (f, failed cannot_make_directory)
      else answer_of (read_file faults f)

  unfoldable pub reload_rules : Faults → FileRegistry → FileRegistry × Answer (Unit {0})
  reload_rules faults f =
      if f.held then (f, blocked_forever) else load faults (record f { held = true; apis = [] })

  unfoldable pub save_locked : Faults → FileRegistry → FileRegistry × Option RegistryError
  save_locked faults f =
      let content = marshal (map (λ e. e.1) f.apis) in
      if faults.marshal_fails
      then (f, some cannot_marshal)
      else if faults.mkdir_fails
      then (f, some cannot_make_directory)
      else if faults.write_fails
      then (f, some cannot_write)
      else if faults.rename_fails
      then (f, some cannot_rename)
      else (record f { file = some content }, none)

  -- The send in a `select` with a default: an event that finds the channel full is dropped, and a
  -- send on a closed channel panics.
  unfoldable pub publish_change :
      RuleChangeEvent fl → FileRegistry → FileRegistry × Answer (Unit {0})
  publish_change event f =
      if f.closed
      then (f, panicked)
      else if ltb (length f.changes) 100
      then (record f { changes = f.changes ++ event ∷ [] }, returned tt)
      else (f, returned tt)

  abbrev pub after_save :
      (FileRegistry → FileRegistry)
      → RuleChangeEvent fl
      → FileRegistry × Option RegistryError
      → FileRegistry × Answer (Unit {0})
  after_save undo event (f, none) = publish_change event f
  after_save undo event (f, some e) = (undo f, failed e)

  -- The end of a method that has changed the map: save, and then undo or tell.
  unfoldable pub finish_change :
      Faults
      → (FileRegistry → FileRegistry)
      → RuleChangeEvent fl
      → FileRegistry
      → FileRegistry × Answer (Unit {0})
  finish_change faults undo event f = after_save undo event (save_locked faults f)

  -- A receive from the channel, by a goroutine of `SubscribeChanges`: nothing where it would wait.
  unfoldable pub receive_change : FileRegistry → FileRegistry × Option (RuleChangeEvent fl)
  receive_change f = elim f.changes [
    | [] ↦ (f, none)
    | event ∷ rest ↦ (record f { changes = rest }, some event)
  ]

  unfoldable pub close : FileRegistry → FileRegistry
  close f = record f { closed = true }
