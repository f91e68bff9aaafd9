-- ===== src/Memory/Backend/Calls.antt =====
-- Any sequence of calls of the backend of middleware/storage/memory/store.go.
use open_source.Common.{
  ℕ, ◌+◌, ◌≤◌, ◌≡◌, ◌≢◌, refl, inl, inr, Bool, true, false, List, [], ◌∷◌, Option, some, arith,
  ◌==◌, Option-cases, Text, lookup,
}
use open_source.Common.Int.{ℤ, pos}
use open_source.Common.GoTime.{Time, Duration}
use open_source.Common.Float.{Float64}
use open_source.Memory.Cache.{Ptr, Links, update, new_lru_cache, set_next, set_prev, len, ◌>>=◌}
use open_source.Memory.Cache.Order.{touch}
use open_source.Memory.Entry.{IpEntry, is_blocked}
use open_source.Memory.Backend.{
  Backend, read, new_backend, allow, allow_sliding_window, block, is_key_blocked, get_token_bucket,
  set_token_bucket, get_sliding_window_count, get_violation_count, increment_violation,
  decay_violations, decay_entry, store, allow_entry, window_of,
}
use open_source.Memory.Backend.State.{IsDuration, Valid, Allocates, get-Valid}
use open_source.Memory.Backend.Made.{made_entry, made_default, default_entry-made}
use open_source.Memory.Window.Made.{Fits, new_sliding_window-makes}
use open_source.Memory.Entry
use open_source.Memory.Backend.Fetch.{fetch-Fetched}
use open_source.Memory.Backend.Updates.{
  entry_or, store-Valid, allow-Updated, allow_sliding_window-Updated, block-Updated,
  increment_violation-Updated,
}
use open_source.Memory.Backend.Blocks.{read-Valid}

module _ (fl : Float64) where
  open fl use {Float, of_int}

  -- A method with its arguments and its readings of the clock.
  pub data Call : Type 0 where
    allows : Text → Float → ℤ → (made seen checked left filled : Time) → Call
    slides : Text → ℤ → Duration → (made seen checked left counted : Time) → Call
    blocks : Text → Duration → (made now : Time) → Call
    asks_blocked : Text → Time → Call
    reads_bucket : Text → Call
    writes_bucket : Text → Float → Time → (made : Time) → Call
    counts : Text → Time → Call
    reads_violations : Text → Call
    violates : Text → (made now : Time) → Call
    decays : List Text → (decay_secs now : ℕ) → Call

  abbrev state_of {ℓ} : {A : Type ℓ} → Option (Backend fl × A) → Option (Backend fl)
  state_of r = do (b, answer) ← r; some b

  unfoldable pub perform : Call → Backend fl → Option (Backend fl)
  perform (allows key rps burst made seen checked left filled) b =
      state_of (allow fl key rps burst made seen checked left filled b)
  perform (slides key limit window_size made seen checked left counted) b =
      state_of (allow_sliding_window fl key limit window_size made seen checked left counted b)
  perform (blocks key duration made now) b = block fl key duration made now b
  perform (asks_blocked key now) b = state_of (is_key_blocked fl key now b)
  perform (reads_bucket key) b = state_of (get_token_bucket fl key b)
  perform (writes_bucket key tokens last_update made) b =
      set_token_bucket fl key tokens last_update made b
  perform (counts key now) b = state_of (get_sliding_window_count fl key now b)
  perform (reads_violations key) b = state_of (get_violation_count fl key b)
  perform (violates key made now) b = state_of (increment_violation fl key made now b)
  perform (decays keys decay_secs now) b = decay_violations fl keys decay_secs now b

  unfoldable pub perform_all : List Call → Backend fl → Option (Backend fl)
  perform_all [] b = some b
  perform_all (c ∷ cs) b = do b' ← perform c b; perform_all cs b'

  -- The interval of a decay is a second or more, and the limit of a window is one it can be made for.
  abbrev pub Sane : Call → Type 0
  Sane (decays keys decay_secs now) = 1 ≤ decay_secs
  Sane (slides key limit window_size made seen checked left counted) =
      Fits limit × IsDuration window_size
  Sane _ = Unit {0}

  abbrev pub AllSane : List Call → Type 0
  AllSane [] = Unit {0}
  AllSane (c ∷ cs) = Sane c × AllSane cs

  allow_entry-answers :
      (limit : ℤ) (window_size : Duration) (checked left counted : Time) (e : IpEntry fl)
      → Fits limit
      → (answer : IpEntry fl × (Bool × Duration)) × (allow_entry fl limit window_size checked left
            counted e
          ≡ some answer)
  unfolding allow_entry window_of
  allow_entry-answers limit window_size checked left counted e fits =
      let makes = new_sliding_window-makes window_size limit fits in
      elim (Option-cases (allow_entry fl limit window_size checked left counted e)) [
        | inl panics ↦ absurd (elim (Option-cases e.sliding_window) [
          | inl miss ↦ ground (arith, makes, miss, panics)
          | inr (sw, hit) ↦ ground (arith, hit, panics)
        ])
        | inr found ↦ found
      ]

  -- The backend is valid after the call that gave `r`, which did not panic.
  abbrev Stays : ℕ → Option (Backend fl) → Type 0
  Stays size r = (b' : Backend fl) × (r ≡ some b') × (es : List (Text × Ptr)) × Valid fl size b' es

  decay_violations-Valid :
      (size : ℕ) (keys : List Text) (decay_secs now : ℕ) (b : Backend fl) (es : List (Text × Ptr))
      → Valid fl size b es
      → 1 ≤ decay_secs
      → Stays size (decay_violations fl keys decay_secs now b)
  unfolding decay_violations
  decay_violations-Valid size [] decay_secs now b es v h = (b, refl, es, v)
  decay_violations-Valid size (k ∷ keys) decay_secs now b es v h =
      let (c, got, v', items) = get-Valid fl size k b es v in
      let b' = record b { cache = c } in
      elim (Option-cases (lookup k b.cache.items)) [
        | inl miss ↦
            let (b'', decayed, es', v'') =
              decay_violations-Valid size keys decay_secs now b' (touch k es) v' h in
            (b'', rw (got, decay_violations) (rw miss decayed), es', v'')
        | inr (p, hit) ↦
            let e = decay_entry fl now decay_secs (b.entries p) in
            let positive : (decay_secs == 0) ≡ false = ground arith in
            let (b'', decayed, es', v'') =
              decay_violations-Valid size keys decay_secs now (store fl p e b') (touch k es)
                (store-Valid fl size p e b' (touch k es) v') h in
            (b'', rw (got, decay_violations) (rw hit (rw positive decayed)), es', v'')
      ]

  reads-Stay :
      {A : Type 0} (size : ℕ) (k : Text) (absent : A) (f : IpEntry fl → A) (b : Backend fl)
      (es : List (Text × Ptr))
      → Valid fl size b es
      → Stays size (state_of (read fl k absent f b))
  reads-Stay size k absent f b es v =
      let (b', reads, v', same) = read-Valid fl size k absent f b es v in
      (b', rw reads, touch k es, v')

  perform-Valid :
      (size : ℕ) (c : Call) (b : Backend fl) (es : List (Text × Ptr))
      → 1 ≤ size
      → Sane c
      → Valid fl size b es
      → Stays size (perform c b)
  unfolding perform set_token_bucket is_key_blocked get_token_bucket get_sliding_window_count
      get_violation_count
  perform-Valid size (allows key rps burst made seen checked left filled) b es room h v =
      let (b', e, u) =
        allow-Updated fl size key rps burst made seen checked left filled b es room v in
      (b', rw e, u.order, u.valid)
  perform-Valid size (slides key limit window_size made seen checked left counted) b es room h v =
      let new = made_entry fl b.rps b.default_burst true window_size made in
      let (answer, answers) =
        allow_entry-answers limit window_size checked left counted
          (Entry.touch fl seen (entry_or fl new key b)) h.0 in
      let (b', e, u) =
        allow_sliding_window-Updated fl size key limit window_size made seen checked left counted b
          es answer room h.1 v answers in
      (b', rw e, u.order, u.valid)
  perform-Valid size (blocks key duration made now) b es room h v =
      let (b', e, u) = block-Updated fl size key duration made now b es room v in
      (b', e, u.order, u.valid)
  perform-Valid size (asks_blocked key now) b es room h v =
      reads-Stay {A = Bool × Time} size key _ _ b es v
  perform-Valid size (reads_bucket key) b es room h v =
      reads-Stay {A = Float × Time} size key _ _ b es v
  perform-Valid size (writes_bucket key tokens last_update made) b es room h v =
      let (b', p, fetches, f) =
        fetch-Fetched fl size key _ (made_default fl made b) b es room
          (default_entry-made fl made b v.allocates v.sized) v in
      let e = record (b'.entries p) {
        bucket = record { tokens = tokens; last_update = last_update };
      } in
      (
        store fl p e b',
        rw (fetches, set_token_bucket) refl,
        f.order,
        store-Valid fl size p e b' f.order f.valid,
      )
  perform-Valid size (counts key now) b es room h v = reads-Stay size key _ _ b es v
  perform-Valid size (reads_violations key) b es room h v = reads-Stay size key _ _ b es v
  perform-Valid size (violates key made now) b es room h v =
      let (b', e, u) = increment_violation-Updated fl size key made now b es room v in
      (b', rw e, u.order, u.valid)
  perform-Valid size (decays keys decay_secs now) b es room h v =
      decay_violations-Valid size keys decay_secs now b es v h

  perform_all-Valid :
      (size : ℕ) (cs : List Call) (b : Backend fl) (es : List (Text × Ptr))
      → 1 ≤ size
      → AllSane cs
      → Valid fl size b es
      → Stays size (perform_all cs b)
  unfolding perform_all
  perform_all-Valid size [] b es room h v = (b, refl, es, v)
  perform_all-Valid size (c ∷ cs) b es room h v =
      let (b', e, es', v') = perform-Valid size c b es room h.0 v in
      let (b'', e', es'', v'') = perform_all-Valid size cs b' es' room h.1 v' in
      (b'', rw (e, perform_all) e', es'', v'')

  -- What `New` returns.
  abbrev pub started :
      ℤ → Bool → Duration → Float → ℤ → (head tail : Ptr) → Links → (Ptr → IpEntry fl) → Backend fl
  started max_ips use_sliding window_size rps burst head tail links entries =
      let linked : Links = record {
        next = update links.next head tail;
        prev = update links.prev tail head;
      } in
      record {
        cache = record { capacity = max_ips; items = []; head = head; tail = tail; links = linked };
        use_sliding = use_sliding;
        window_size = window_size;
        rps = rps;
        default_burst = burst;
        entries = entries;
        fresh = head + tail + 1;
      }

  pub new_backend-Valid :
      (size : ℕ) (use_sliding : Bool) (window_size : Duration) (rps : Float) (burst : ℤ)
      (head tail : Ptr) (links : Links) (entries : Ptr → IpEntry fl)
      → 1 ≤ head
      → 1 ≤ tail
      → head ≢ tail
      → Allocates fl rps burst
      → IsDuration window_size
      → let b = started (pos size) use_sliding window_size rps burst head tail links entries in
        (new_backend fl (pos size) use_sliding window_size rps burst head tail links entries
          ≡ some b)
        × Valid fl size b []
  unfolding new_backend new_lru_cache set_next set_prev
  new_backend-Valid size use_sliding window_size rps burst head tail links entries h t n allocates
        sized =
      let head_set : (head == 0) ≡ false = ground arith in
      let tail_set : (tail == 0) ≡ false = ground arith in
      (
        rw (head_set, new_backend) (rw tail_set refl),
        record {
          ordered = record {
            threaded = record {
              chain = (ground arith, ground arith);
              apart = (ground arith, (refl, tt));
              no_nil = ground arith;
            };
            keyed_items = tt;
            keyed = tt;
            same = λ k. refl;
            size = refl;
          };
          capacity = refl;
          bounded = ground arith;
          started = ground arith;
          unused = λ x above. ground arith;
          allocates = allocates;
          sized = sized;
        },
      )

  -- From a new backend with room for one entry, made with two sentinels at addresses that are not
  -- nil and not the same, and with a rate and a burst that give the windows of new entries limits
  -- below 2^62: whatever calls are made, none panics if no call of `DecayViolations` has an interval
  -- below a second and no call of `AllowSlidingWindow` a limit below 0 or from 2^62 on, and the cache
  -- does not end with more entries than its capacity.
  pub new_backend-perform_all :
      (size : ℕ) (use_sliding : Bool) (window_size : Duration) (rps : Float) (burst : ℤ)
      (head tail : Ptr) (links : Links) (entries : Ptr → IpEntry fl) (cs : List Call)
      → 1 ≤ size
      → 1 ≤ head
      → 1 ≤ tail
      → head ≢ tail
      → Allocates fl rps burst
      → IsDuration window_size
      → AllSane cs
      → (b b' : Backend fl) × (new_backend fl
            (pos size)
            use_sliding
            window_size
            rps
            burst
            head
            tail
            links
            entries
          ≡ some b)
        × (perform_all cs b ≡ some b')
        × (len b'.cache ≤ size)
  unfolding len
  new_backend-perform_all size use_sliding window_size rps burst head tail links entries cs room h t
        n allocates sized d =
      let b = started (pos size) use_sliding window_size rps burst head tail links entries in
      let (made, v) =
        new_backend-Valid size use_sliding window_size rps burst head tail links entries h t n
          allocates sized in
      let (b', performed, es, v') = perform_all-Valid size cs b [] room d v in
      (b, b', made, performed, rw v'.ordered.size v'.bounded)
