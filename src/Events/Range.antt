-- ===== src/Events/Range.antt =====
-- What GetRange of middleware/base/events.go returns after a call of Append.
use open_source.Common.{
  suc, ◌+◌, ◌-◌, ◌*◌, ◌/◌, ◌≤◌, ◌≡◌, ap, sym, ◌∙◌, Bool, true, false, inl, inr, if◌then◌else◌, List,
  [], ◌∷◌, ◌++◌, none, some, arith, Option-cases, Text, codes, lookup, insert, lookup-insert_self,
}
use mathlib.Core.List.{Mem, map, mem-cons_self, mem-cons_of_mem, not-mem-nil}
use open_source.Common.GoTime.{Time}
use open_source.Events.Store.{
  Event, EventFilter, Host, EventStore, Written, contents, stamped, remember, persist, append,
  read_file, file_name, day_events, day, day_start, in_range, selected, from_day, get_range,
}
use open_source.Events.Collected.{Readable, selected-keeps, range_loop-Collected}

-- The dates are those of UTC: an instant and the start of its day have one name.
abbrev pub Utc : Host → Type 0
Utc host = (t : Time) → host.format_day t ≡ host.format_day (day_start t)

-- An event as package json reads it back: its data, which is JSON itself, is laid out anew, by
-- `indent` (the spaces and the escapes that MarshalIndent writes).
abbrev pub laid_out : (Text → Text) → Event → Event
laid_out indent e = record e { payload = indent e.payload }

-- Package json reads back what it wrote, up to the layout of the data.
abbrev pub ReadsBack : Host → (Text → Text) → Type 0
ReadsBack host indent =
    (events : List Event) (content : host.Data)
    → host.marshal events ≡ some content
    → host.unmarshal content ≡ (map (laid_out indent) events, false)

-- The last of some events is the last of what they are mapped to.
mem-map-snoc :
    (f : Event → Event) (evs : List Event) (e : Event) → Mem (f e) (map f (evs ++ (e ∷ [])))
mem-map-snoc f [] e = mem-cons_self
mem-map-snoc f (x ∷ evs) e = mem-cons_of_mem (f x) (mem-map-snoc f evs e)

module _ (host : Host) where
  -- A call of Append that reports no error has written a file of its day with the event in it.
  persist-written :
      (fails : Text → Bool) (written : Written host) (e : Event) (s : EventStore host)
      → (persist host fails written e s).1 ≡ none
      → (before_it : List Event) × (content : host.Data) × (host.marshal (before_it ++ (e ∷ []))
          ≡ some content)
        × ((persist host fails written e s).0.files
            ≡ insert (file_name host e.timestamp) content s.files)
  unfolding persist
  persist-written fails written e s h =
      let name = file_name host e.timestamp in
      let events = day_events host (read_file host fails name s.files) in
      elim (Option-cases (host.marshal (events ++ (e ∷ [])))) [
        | inl refused ↦ ground (arith, refused)
        | inr (content, text) ↦ (events, content, text, ground (arith, text))
      ]

  in_range-bounds :
      (from to : Time) (filter : EventFilter) (e : Event)
      → in_range from to filter e ≡ true
      → (from ≤ e.timestamp) × (e.timestamp ≤ to)
  unfolding in_range
  in_range-bounds from to filter e h = ground arith

  in_range-laid_out :
      (indent : Text → Text) (from to : Time) (filter : EventFilter) (e : Event)
      → in_range from to filter e ≡ true
      → in_range from to filter (laid_out indent e) ≡ true
  unfolding in_range
  in_range-laid_out indent from to filter e h = h

  same_day :
      (from t : Time) → from ≤ t → day_start from + (t / day - from / day) * day ≡ day_start t
  same_day from t h = omega arith

  from_day-selected :
      (keep : Event → Bool) (fails : Text → Bool) (name : Text) (files : List (Text × host.Data))
      (content : host.Data) (evs : List Event)
      → Readable host fails
      → lookup name files ≡ some content
      → host.unmarshal content ≡ (evs, false)
      → from_day host keep (read_file host fails name files) ≡ some (selected keep evs)
  unfolding read_file from_day
  from_day-selected keep fails name files content evs ok there text =
      let found : read_file host fails name files ≡ contents content =
        ground (arith, there, ok name) in
      ap (from_day host keep) found ∙ ap (λ r. some (if r.1 then [] else selected keep r.0)) text

  -- GetRange finds an event that the file of its day has.
  get_range-finds :
      Utc host
      → (fails : Text → Bool) (from to : Time) (filter : EventFilter) (s : EventStore host)
        (e : Event) (content : host.Data) (evs : List Event)
      → Readable host fails
      → lookup (file_name host e.timestamp) s.files ≡ some content
      → host.unmarshal content ≡ (evs, false)
      → Mem e evs
      → in_range from to filter e ≡ true
      → (l : List Event) × (get_range host fails from to filter s ≡ some l)
        × Mem e l
        × ((e : Event) → Mem e l → in_range from to filter e ≡ true)
  unfolding get_range
  get_range-finds utc fails from to filter s e content evs ok there text m fits =
      let keep = in_range from to filter in
      let (after, upto) = in_range-bounds from to filter e fits in
      let k = e.timestamp / day - from / day in
      let (l, returns, all) =
        range_loop-Collected host keep fails ok to s.files (suc (to / day)) (day_start from) [] in
      let name : file_name host e.timestamp ≡ file_name host (day_start from + k * day) =
        ap (λ day_name. day_name ++ codes ".json") (utc e.timestamp)
        ∙ ap (file_name host) (sym (same_day from e.timestamp after)) in
      (
        l,
        returns,
        all.finds e k (omega arith) (omega arith) (
          selected keep evs,
          from_day-selected keep fails (file_name host (day_start from + k * day)) s.files content
              evs ok (ap (λ n. lookup n s.files) (sym name) ∙ there) text,
          selected-keeps keep e evs fits m,
        ),
        all.passes (λ e m. absurd (not-mem-nil m)),
      )

  -- In UTC, and where package json reads back what it wrote up to the layout of an event's data: after a
  -- call of Append that reports no error, GetRange over a range and with a filter that the stored
  -- event meets returns a list with that event in it, its data laid out anew, and with no event that
  -- does not meet them, if the files that are there can be read.
  pub get_range-append :
      (indent : Text → Text)
      → Utc host
      → ReadsBack host indent
      → (made now : Time) (fails : Text → Bool) (written : Written host) (event : Event)
        (s : EventStore host) (from to : Time) (filter : EventFilter) (fails' : Text → Bool)
      → let (s', (stored, error)) = append host made now fails written event s in
        error ≡ none
        → in_range from to filter stored ≡ true
        → Readable host fails'
        → (l : List Event) × (get_range host fails' from to filter s' ≡ some l)
          × Mem (laid_out indent stored) l
          × ((e : Event) → Mem e l → in_range from to filter e ≡ true)
  unfolding append
  get_range-append indent utc reads made now fails written event s from to filter fails' no_error
        fits ok =
      let stored = stamped host made now event in
      let name = file_name host stored.timestamp in
      let (evs, content, text, files) =
        persist-written fails written stored (remember host stored s) no_error in
      get_range-finds utc fails' from to filter (append host made now fails written event s).0
        (laid_out indent stored) content (map (laid_out indent) (evs ++ (stored ∷ []))) ok
        (ap (lookup name) files ∙ lookup-insert_self name content s.files)
        (reads (evs ++ (stored ∷ [])) content text) (mem-map-snoc (laid_out indent) evs stored)
        (in_range-laid_out indent from to filter stored fits)
