-- ===== src/Events/Store.antt =====
-- EventStore of middleware/base/events.go: its state, the files of its directory, and its methods.
-- Instants and the names of days are in one time zone.
use open_source.Common.{
  ℕ, zero, suc, ◌+◌, ◌-◌, ◌*◌, ◌/◌, ◌%◌, Bool, false, not, ◌||◌, ◌&&◌, List, [], ◌∷◌, ◌++◌, Option,
  none, some, ltb, ◌==◌, if◌then◌else◌, length, drop, take, get_elem?, Text, codes, is_empty,
  text_eq, lookup, insert,
}
use open_source.Common.Int.{ℤ, pos, pos_part, ltb_ℤ, neg}
use open_source.Common.GoTime.{Time, Duration, hours, add, before}

pub record Event : Type 0 where
  pub id : Text
  pub kind : Text  -- Type
  pub api_id : Text
  pub endpoint_id : Text
  pub timestamp : Time
  pub actor : Text
  pub payload : Text  -- Data
  pub message : Text

pub record EventFilter : Type 0 where
  pub kind : Text
  pub api_id : Text

-- The functions of packages json, time and os that the methods call. `unmarshal` gives the events it
-- has read and whether it ends in an error, `parse_day` is time.Parse with the layout of
-- `format_day`, and `event_id` the text of generateEventID.
pub record Host : Type 1 where
  pub Data : Type 0
  pub marshal : List Event → Option Data
  pub unmarshal : Data → List Event × Bool
  pub format_day : Time → Text
  pub parse_day : Text → Option Time
  pub event_id : Time → Text

-- The loop of GetRecent, with `left` rounds to go.
unfoldable pub recent_loop : (left i : ℕ) → List Event → List Event
recent_loop zero i events = []
recent_loop (suc left) i events =
    let rest = recent_loop left (suc i) events in
    elim (get_elem? events (length events - 1 - i)) [ none ↦ rest | some event ↦ event ∷ rest ]

unfoldable pub in_range : (from to : Time) → EventFilter → Event → Bool
in_range from to filter ev =
    not (before ev.timestamp from || before to ev.timestamp)
    && (is_empty filter.kind || text_eq ev.kind filter.kind)
    && (is_empty filter.api_id || text_eq ev.api_id filter.api_id)

unfoldable pub selected : (Event → Bool) → List Event → List Event
selected keep [] = []
selected keep (ev ∷ evs) = if keep ev then ev ∷ selected keep evs else selected keep evs

abbrev pub day : ℕ
day = 86400000000000

-- `t.Truncate(24 * time.Hour)`
abbrev pub day_start : Time → Time
day_start t = t - t % day

module _ (host : Host) where
  open host use {Data}

  -- `files` holds the files of the directory under their names; a directory in it is left out.
  -- maxMem is 1000 from the start.
  pub record EventStore : Type 0 where
    pub events : List Event
    pub max_mem : ℕ
    pub retention : Duration
    pub files : List (Text × Data)

  unfoldable pub new_event_store : List (Text × Data) → EventStore
  new_event_store files = record {
    events = [];
    max_mem = 1000;
    retention = hours (30 * 24);
    files = files;
  }

  -- How a write of a file ends: a write that fails may leave a part of the data.
  pub data Written : Type 0 where
    whole not_opened : Written
    cut_short : Data → Written

  pub data EventError : Type 0 where
    cannot_read cannot_marshal cannot_write cannot_list : EventError

  pub data FileRead : Type 0 where
    not_exist unreadable : FileRead
    contents : Data → FileRead

  -- os.ReadFile, where `fails` names the files that are there and cannot be read
  unfoldable pub read_file : (Text → Bool) → Text → List (Text × Data) → FileRead
  read_file fails name files = elim (lookup name files) [
    | none ↦ not_exist
    | some content ↦ if fails name then unreadable else contents content
  ]

  unfoldable pub file_name : Time → Text
  file_name t = host.format_day t ++ codes ".json"

  -- The event with an id and a timestamp; the clock is read for each.
  unfoldable pub stamped : (made now : Time) → Event → Event
  stamped made now event = record event {
    id = if is_empty event.id then host.event_id made else event.id;
    timestamp = if event.timestamp == 0 then now else event.timestamp;
  }

  unfoldable pub remember : Event → EventStore → EventStore
  remember event s =
      let events = s.events ++ (event ∷ []) in
      record s {
        events =
            if ltb s.max_mem (length events)
            then drop (length events - s.max_mem) events
            else events;
      }

  -- The events of a day before one is added: a file that cannot be read or parsed counts as far as it
  -- was read.
  unfoldable pub day_events : FileRead → List Event
  day_events not_exist = []
  day_events unreadable = []
  day_events (contents content) = (host.unmarshal content).0

  unfoldable pub persist :
      (Text → Bool) → Written → Event → EventStore → EventStore × Option EventError
  unfolding read_file day_events file_name
  persist fails written event s =
      let name = file_name event.timestamp in
      elim (host.marshal (day_events (read_file fails name s.files) ++ (event ∷ []))) [
        | none ↦ (s, some cannot_marshal)
        | some content ↦ elim written [
          | whole ↦ (record s { files = insert name content s.files }, none)
          | not_opened ↦ (s, some cannot_write)
          | cut_short part ↦ (record s { files = insert name part s.files }, some cannot_write)
        ]
      ]

  -- The event is changed in place.
  unfoldable pub append :
      (made now : Time)
      → (Text → Bool)
      → Written
      → Event
      → EventStore
      → EventStore × (Event × Option EventError)
  unfolding stamped remember persist
  append made now fails written event s =
      let event' = stamped made now event in
      let (s', error) = persist fails written event' (remember event' s) in (s', (event', error))

  -- A negative limit panics in `make`.
  unfoldable pub get_recent : ℤ → EventStore → Option (List Event)
  unfolding recent_loop
  get_recent limit s =
      if ltb_ℤ limit (pos 0)
      then none
      else some (
          recent_loop
            (if ltb_ℤ (pos (length s.events)) limit then length s.events else pos_part limit) 0
            s.events)

  -- What one file adds to the result; none is the return with an error.
  unfoldable pub from_day : (Event → Bool) → FileRead → Option (List Event)
  unfolding selected
  from_day keep not_exist = some []
  from_day keep unreadable = none
  from_day keep (contents content) =
      let (evs, failed) = host.unmarshal content in some (if failed then [] else selected keep evs)

  -- The loop over the days, on fuel.
  unfoldable pub range_loop :
      ℕ
      → (Event → Bool)
      → (Text → Bool)
      → (d to : Time) → List (Text × Data)
      → List Event
      → Option (List Event)
  unfolding read_file from_day file_name
  range_loop zero keep fails d to files result = some result
  range_loop (suc fuel) keep fails d to files result =
      if before to d
      then some result
      else elim (from_day keep (read_file fails (file_name d) files)) [
        | none ↦ none
        | some evs ↦ range_loop fuel keep fails (d + day) to files (result ++ evs)
      ]

  unfoldable pub get_range :
      (Text → Bool) → (from to : Time) → EventFilter → EventStore → Option (List Event)
  unfolding range_loop in_range
  get_range fails from to filter s =
      range_loop (suc (to / day)) (in_range from to filter) fails (day_start from) to s.files []

  -- A file that Cleanup removes: `len(name)` counts bytes, which are the characters of a name in ASCII.
  unfoldable pub expired : Time → Text → Bool
  expired cutoff name =
      (length name == 14)
      && text_eq (drop 9 name) (codes ".json")
      && (elim (host.parse_day (take 10 name)) [ none ↦ false | some date ↦ before date cutoff ])

  unfoldable pub remove_expired : Time → List (Text × Data) → List (Text × Data)
  unfolding expired
  remove_expired cutoff [] = []
  remove_expired cutoff ((name, content) ∷ files) =
      let rest = remove_expired cutoff files in
      if expired cutoff name then rest else (name, content) ∷ rest

  unfoldable pub cleanup :
      (lists : Bool) → (now : Time) → EventStore → EventStore × Option EventError
  unfolding remove_expired
  cleanup lists now s =
      if lists
      then (record s { files = remove_expired (add now (neg s.retention)) s.files }, none)
      else (s, some cannot_list)
