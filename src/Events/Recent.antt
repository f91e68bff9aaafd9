-- ===== src/Events/Recent.antt =====
-- What GetRecent of middleware/base/events.go returns after any calls of Append.
use open_source.Common.{
  ℕ, zero, suc, ◌+◌, ◌-◌, ◌≤◌, ◌≡◌, refl, ap, sym, ◌∙◌, Bool, true, false, inl, inr, List, [], ◌∷◌,
  ◌++◌, some, arith, ltb, Bool-cases, length, drop, take, get_elem?, map, Text, length-append,
  length-reverse, take-length, take-take, reverse-drop, get_elem?-reverse, drop-get_elem?,
  get_elem?-some,
}
use mathlib.Core.List
use mathlib.Core.List.{reverse}
use open_source.Common.Int.{pos}
use open_source.Common.GoTime.{Time}
use open_source.Events.Store.{
  Event, Host, EventStore, Written, new_event_store, stamped, remember, persist, append,
  recent_loop, get_recent,
}

-- The loop reads the list from its end.
recent_loop-reverse :
    (left i : ℕ) (events : List Event)
    → left + i ≤ length events
    → recent_loop left i events ≡ take left (drop i (reverse events))
unfolding recent_loop
recent_loop-reverse zero i events h = refl
recent_loop-reverse (suc left) i events h =
    let (x, found) = get_elem?-some i (reverse events) (omega (arith, length-reverse events)) in
    let read : get_elem? events (length events - 1 - i) ≡ some x =
      sym (get_elem?-reverse i events (omega arith)) ∙ found in
    rw (recent_loop, read, drop-get_elem? i x (reverse events) found)
      (ap (λ l. x ∷ l) (recent_loop-reverse left (suc i) events (omega arith)))

module _ (host : Host) where
  get_recent-reverse :
      (n : ℕ) (s : EventStore host) → get_recent host (pos n) s ≡ some (take n (reverse s.events))
  unfolding get_recent
  get_recent-reverse n s =
      let count = length s.events in
      let newest = reverse s.events in
      let all : ltb count n ≡ true → recent_loop count 0 s.events ≡ take n newest = λ above.
        recent_loop-reverse count 0 s.events (omega arith)
        ∙ take-length count newest (omega (arith, length-reverse s.events))
        ∙ sym (take-length n newest (ground (arith, length-reverse s.events))) in
      let some_of_them : ltb count n ≡ false → recent_loop n 0 s.events ≡ take n newest =
        λ within. recent_loop-reverse n 0 s.events (ground arith) in
      elim (Bool-cases (ltb count n)) [
        | inl above ↦ ground (arith, all above)
        | inr within ↦ ground (arith, some_of_them within)
      ]

  -- What one event adds to the events in memory, newest first.
  remember-reverse :
      (event : Event) (s : EventStore host)
      → reverse (remember host event s).events ≡ take s.max_mem (event ∷ reverse s.events)
  unfolding remember
  remember-reverse event s =
      let events = s.events ++ (event ∷ []) in
      let count = length events in
      let newest : reverse events ≡ event ∷ reverse s.events =
        List.reverse-append s.events (event ∷ []) in
      elim (Bool-cases (ltb s.max_mem count)) [
        | inl over ↦
            let left : count - (count - s.max_mem) ≡ s.max_mem = ground arith in
            rw over (
              reverse-drop (count - s.max_mem) events
              ∙ ap (λ k. take k (reverse events)) left
              ∙ ap (take s.max_mem) newest)
        | inr within ↦ rw within (
            newest
            ∙ sym (
                take-length s.max_mem (event ∷ reverse s.events)
                  (ground (arith, length-append s.events (event ∷ []), length-reverse s.events))))
      ]

  persist-memory :
      (fails : Text → Bool) (written : Written host) (event : Event) (s : EventStore host)
      → let s' = (persist host fails written event s).0 in
        (s'.events ≡ s.events) × (s'.max_mem ≡ s.max_mem)
  unfolding persist
  persist-memory fails written event s = ground arith

  -- A call of Append: when its clock is read, which reads fail, how its write ends.
  pub record Appending : Type 0 where
    pub made : Time
    pub now : Time
    pub fails : Text → Bool
    pub written : Written host
    pub event : Event

  unfoldable pub run : List Appending → EventStore host → EventStore host
  run [] s = s
  run (call ∷ calls) s =
      run calls (append host call.made call.now call.fails call.written call.event s).0

  -- The events of the calls, as they are stored.
  abbrev pub logged : List Appending → List Event
  logged = map (λ call. stamped host call.made call.now call.event)

  -- The store has the newest events of the log `newest`, which has the newest first.
  record Holds (newest : List Event) (s : EventStore host) : Type 0 where
    kept : reverse s.events ≡ take 1000 newest
    bound : s.max_mem ≡ 1000

  -- One call of Append, whether or not its files are written.
  append-Holds :
      (call : Appending) (newest : List Event) (s : EventStore host)
      → Holds newest s
      → Holds
          (stamped host call.made call.now call.event ∷ newest)
          (append host call.made call.now call.fails call.written call.event s).0
  unfolding append
  append-Holds call newest s h =
      let event = stamped host call.made call.now call.event in
      let (same_events, same_bound) =
        persist-memory call.fails call.written event (remember host event s) in
      record {
        kept =
            ap reverse same_events
            ∙ remember-reverse event s
            ∙ ap (λ m. take m (event ∷ reverse s.events)) h.bound
            ∙ ap (λ l. event ∷ take 999 l) h.kept
            ∙ ap (λ l. event ∷ l) (take-take 999 1000 newest (omega arith));
        bound = same_bound ∙ h.bound;
      }

  run-Holds :
      (calls : List Appending) (newest : List Event) (s : EventStore host)
      → Holds newest s
      → Holds (List.reverse_aux (logged calls) newest) (run calls s)
  unfolding run
  run-Holds [] newest s h = h
  run-Holds (call ∷ calls) newest s h =
      run-Holds calls (stamped host call.made call.now call.event ∷ newest)
        (append host call.made call.now call.fails call.written call.event s).0
        (append-Holds call newest s h)

  -- After any calls of Append to a new store, whatever becomes of its files, GetRecent with a limit of
  -- n returns the last n events that were appended, as they are stored and the newest first, but of
  -- the last 1000 only.
  pub get_recent-run :
      (files : List (Text × host.Data)) (calls : List Appending) (n : ℕ)
      → get_recent host (pos n) (run calls (new_event_store host files))
        ≡ some (take n (take 1000 (reverse (logged calls))))
  unfolding new_event_store
  get_recent-run files calls n =
      get_recent-reverse n (run calls (new_event_store host files))
      ∙ ap (λ l. some (take n l))
          (run-Holds calls [] (new_event_store host files)
            (record { kept = refl; bound = refl })).kept
