-- ===== src/Events/Tests.antt =====
-- Runs of the event store of middleware/base/events.go, over a json that puts a space before the data
-- of an event, days that are named by one character, and a time.Parse that takes any digits for the first day.
use open_source.Common.{
  ℕ, ◌+◌, ◌*◌, ◌/◌, ◌≡◌, refl, ap, true, false, Bool, List, [], ◌∷◌, none, some, arith, Text, codes,
  text_eq, take, sym, ◌∙◌, leb, ◌&&◌, if◌then◌else◌,
}
use mathlib.Core.Bool.{Bool-set}
use mathlib.Core.Logic.Or
use mathlib.Core.Option.{some_inj}
use mathlib.Core.List.{Mem, map, mem-cons, not-mem-nil, reverse}
use open_source.Common.Int.{pos}
use open_source.Events.Store.{
  Event, EventFilter, Host, EventStore, whole, not_opened, new_event_store, append, get_recent,
  get_range, in_range, cleanup, day, stamped, day_start,
}
use open_source.Events.Recent.{Appending, run, logged, get_recent-run}
use open_source.Events.Range.{Utc, ReadsBack, laid_out, get_range-append}
use open_source.Events.Cleanup.{DatesOnly, cleanup_keeps}

abbrev is_digit : ℕ → Bool
is_digit c = leb 48 c && leb c 57

abbrev all_digits : Text → Bool
all_digits [] = true
all_digits (c ∷ text) = is_digit c && all_digits text

abbrev spaced : Text → Text
spaced payload = 32 ∷ payload

abbrev plain_host : Host
plain_host = record {
  Data = List Event;
  marshal = λ events. some events;
  unmarshal = λ events. (map (laid_out spaced) events, false);
  format_day = λ t. t / day ∷ [];
  parse_day = λ text. if all_digits text then some 0 else none;
  event_id = λ t. codes "evt";
}

plain_host-Utc : Utc plain_host
plain_host-Utc t = ap (λ n. n ∷ []) same
  where
    same : t / day ≡ day_start t / day
    same = omega arith

plain_host-ReadsBack : ReadsBack plain_host spaced
plain_host-ReadsBack events content h =
    ap (λ l. (map (laid_out spaced) l, false)) (some_inj.0 (sym h))

all_digits-digit : (text : Text) (c : ℕ) → all_digits text ≡ true → Mem c text → is_digit c ≡ true
all_digits-digit [] c h m = absurd (not-mem-nil m)
all_digits-digit (x ∷ text) c h m =
    Or.elim (Bool-set (is_digit c) true) (mem-cons.0 m) (λ same. ap is_digit same ∙ first)
      (λ later. all_digits-digit text c rest later)
  where
    first : is_digit x ≡ true
    first = ground arith

    rest : all_digits text ≡ true
    rest = ground arith

plain_host-DatesOnly : DatesOnly plain_host
plain_host-DatesOnly text date c h m = ground (arith, all_digits-digit text c digits m)
  where
    digits : all_digits text ≡ true
    digits = ground arith

abbrev created : Event
created = record {
  id = [];
  kind = codes "api_created";
  api_id = codes "shop";
  endpoint_id = [];
  timestamp = 0;
  actor = [];
  payload = [];
  message = [];
}

abbrev empty_store : EventStore plain_host
empty_store = new_event_store plain_host []

abbrev anything : EventFilter
anything = record { kind = codes "api_created"; api_id = [] }

abbrev calls : List (Appending plain_host)
calls =
    record { made = 5; now = 5 * day; fails = λ name. false; written = whole; event = created }
    ∷ record {
      made = 6;
      now = 6 * day;
      fails = λ name. true;
      written = not_opened;
      event = created;
    }
    ∷ []

recent_two :
    get_recent plain_host (pos 7) (run plain_host calls empty_store)
    ≡ some (
        record created { id = codes "evt"; timestamp = 6 * day }
        ∷ record created { id = codes "evt"; timestamp = 5 * day }
        ∷ [])
unfolding get_recent run append new_event_store
recent_two = refl

get_recent-run_example :
    get_recent plain_host (pos 1) (run plain_host calls empty_store)
    ≡ some (take 1 (take 1000 (reverse (logged plain_host calls))))
get_recent-run_example = get_recent-run plain_host [] calls 1

abbrev stored : Event
stored = stamped plain_host 5 (5 * day + 7) created

get_range-append_example :
    let s = (append plain_host 5 (5 * day + 7) (λ name. false) whole created empty_store).0 in
    (l : List Event) × (get_range plain_host (λ name. false) (3 * day + 11) (6 * day) anything s
      ≡ some l)
    × Mem (laid_out spaced stored) l
    × ((e : Event) → Mem e l → in_range (3 * day + 11) (6 * day) anything e ≡ true)
unfolding append in_range text_eq
get_range-append_example =
    get_range-append plain_host spaced plain_host-Utc plain_host-ReadsBack 5 (5 * day + 7)
      (λ name. false) whole created empty_store (3 * day + 11) (6 * day) anything (λ name. false)
      refl refl (λ name. refl)

abbrev old_store : EventStore plain_host
old_store = new_event_store plain_host ((codes "0000000001.json", created ∷ []) ∷ [])

cleanup_keeps_example : (cleanup plain_host true (900000 * day) old_store).0 ≡ old_store
cleanup_keeps_example = cleanup_keeps plain_host plain_host-DatesOnly true (900000 * day) old_store
