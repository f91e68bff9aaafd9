-- ===== src/Memory/Backend/Updates.antt =====
-- The methods of the backend of middleware/storage/memory/store.go that change the entry of a key.
use open_source.Common.{
  ℕ, ◌≤◌, ◌≡◌, ◌≢◌, refl, sym, ◌∙◌, ◌⊎◌, inl, inr, Bool, true, false, List, [], ◌∷◌, ◌++◌, none,
  some, arith, ◌==◌, Option-cases, Text, text_eq_iff, lookup,
}
use open_source.Common.Int.{ℤ, pos, add_int32}
use open_source.Common.GoTime.{Time, Duration, unix}
use open_source.Common.Float.{Float64}
use open_source.Memory.Cache.{Ptr}
use open_source.Memory.Cache.Chain.{Distinct, has-snoc, ne_of_has}
use open_source.Memory.Cache.Order.{ptrs, lookup-has}
use open_source.Memory.Entry.{IpEntry, entry_with, new_ip_entry, is_blocked, bucket_allow}
use open_source.Memory.Entry
use open_source.Memory.Backend.{
  Backend, store, allow, allow_bucket_entry, allow_entry, allow_sliding_window, block_entry, block,
  increment_violation,
}
use open_source.Memory.Backend.State.{IsDuration, Valid, entry_at}
use open_source.Memory.Backend.Made.{
  made_entry, new_ip_entry-made, made_default, default_entry-made,
}
use open_source.Memory.Backend.Fetch.{Fetched, fetch-Fetched}

-- Two keys have two addresses.
apart_keys :
    (j k : Text) (q p : Ptr) (es : List (Text × Ptr)) (z : Ptr)
    → Distinct (ptrs es ++ z ∷ [])
    → lookup j es ≡ some q
    → lookup k es ≡ some p
    → k ≢ j
    → (q == p) ≡ false
unfolding lookup
apart_keys j k q p [] z d f g n = ground arith
apart_keys j k q p ((i, x) ∷ es) z d f g n = ground (
  arith,
  apart_keys j k q p es z,
  lookup-has j es q,
  lookup-has k es p,
  ne_of_has q x (ptrs es),
  ne_of_has p x (ptrs es),
  has-snoc x (ptrs es) z,
  text_eq_iff i j,
  text_eq_iff i k,
)

module _ (fl : Float64) where
  -- The entry of the key in `b'` is `e`, and of any other key it has what `b` has or, when the
  -- addition of an entry dropped it, nothing.
  pub record Updated (size : ℕ) (k : Text) (e : IpEntry fl) (b b' : Backend fl) : Type 0 where
    pub order : List (Text × Ptr)
    pub valid : Valid fl size b' order
    pub here : entry_at fl k b' ≡ some e
    pub others :
        (j : Text) → k ≢ j → (entry_at fl j b' ≡ entry_at fl j b) ⊎ (entry_at fl j b' ≡ none)

  -- The entry that a method works on.
  abbrev pub entry_or : IpEntry fl → Text → Backend fl → IpEntry fl
  entry_or new k b = elim (entry_at fl k b) [ none ↦ new | some e ↦ e ]

  store-other :
      (j k : Text) (p : Ptr) (e : IpEntry fl) (b : Backend fl) (es : List (Text × Ptr)) (size : ℕ)
      → Valid fl size b es
      → lookup k b.cache.items ≡ some p
      → k ≢ j
      → entry_at fl j (store fl p e b) ≡ entry_at fl j b
  unfolding store
  store-other j k p e b es size v h n = elim (Option-cases (lookup j b.cache.items)) [
    | inl miss ↦ rw (miss, entry_at)
    | inr (q, hit) ↦
        rw (hit, entry_at)
          (rw (
            apart_keys j k q p es b.cache.tail v.ordered.threaded.apart.1
              (sym (v.ordered.same j) ∙ hit) (sym (v.ordered.same k) ∙ h) n))
  ]

  pub store-Valid :
      (size : ℕ) (p : Ptr) (e : IpEntry fl) (b : Backend fl) (es : List (Text × Ptr))
      → Valid fl size b es
      → Valid fl size (store fl p e b) es
  unfolding store
  store-Valid size p e b es v = record {
    ordered = v.ordered;
    capacity = v.capacity;
    bounded = v.bounded;
    started = v.started;
    unused = v.unused;
    allocates = v.allocates;
    sized = v.sized;
  }

  store-Updated :
      (size : ℕ) (k : Text) (new e : IpEntry fl) (b b' : Backend fl) (p : Ptr)
      → Fetched fl size k new b b' p
      → Updated size k e b (store fl p e b')
  unfolding store
  store-Updated size k new e b b' p f = record {
    order = f.order;
    valid = store-Valid size p e b' f.order f.valid;
    here = rw (f.here, entry_at) (ground arith);
    others = λ j n.
        let same = store-other j k p e b' f.order size f.valid f.here n in
        elim (f.others j n) [ inl h ↦ inl (same ∙ h) | inr h ↦ inr (same ∙ h) ];
  }

  pub allow_sliding_window-Updated :
      (size : ℕ) (k : Text) (limit : ℤ) (window_size : Duration)
      (made seen checked left counted : Time) (b : Backend fl) (es : List (Text × Ptr))
      (answer : IpEntry fl × (Bool × Duration))
      → 1 ≤ size
      → IsDuration window_size
      → Valid fl size b es
      → let new = made_entry fl b.rps b.default_burst true window_size made in
        allow_entry fl limit window_size checked left counted
            (Entry.touch fl seen (entry_or new k b))
          ≡ some answer
        → (b' : Backend fl) × (allow_sliding_window fl k limit window_size made seen checked left
              counted b
            ≡ some (b', answer.1))
          × Updated size k answer.0 b b'
  unfolding allow_sliding_window
  allow_sliding_window-Updated size k limit window_size made seen checked left counted b es answer
        room d v answers =
      let new = made_entry fl b.rps b.default_burst true window_size made in
      let makes = new_ip_entry-made fl b.rps b.default_burst true window_size made v.allocates d in
      let (b', p, fetches, f) = fetch-Fetched fl size k _ new b es room makes v in
      (
        store fl p answer.0 b',
        rw (fetches, allow_sliding_window) (rw f.entry (rw answers refl)),
        store-Updated size k new answer.0 b b' p f,
      )

  pub allow-Updated :
      (size : ℕ) (k : Text) (rps : fl.Float) (burst : ℤ) (made seen checked left filled : Time)
      (b : Backend fl) (es : List (Text × Ptr))
      → 1 ≤ size
      → Valid fl size b es
      → let new = entry_with fl burst made none in
        let answer =
          allow_bucket_entry fl rps burst checked left filled
            (Entry.touch fl seen (entry_or new k b)) in
        (b' : Backend fl) × (allow fl k rps burst made seen checked left filled b
          ≡ some (b', answer.1))
        × Updated size k answer.0 b b'
  unfolding allow new_ip_entry
  allow-Updated size k rps burst made seen checked left filled b es room v =
      let new = entry_with fl burst made none in
      let (b', p, fetches, f) = fetch-Fetched fl size k (some new) new b es room refl v in
      let answer =
        allow_bucket_entry fl rps burst checked left filled
          (Entry.touch fl seen (entry_or new k b)) in
      (
        store fl p answer.0 b',
        rw (fetches, allow) (rw f.entry refl),
        store-Updated size k new answer.0 b b' p f,
      )

  pub block-Updated :
      (size : ℕ) (k : Text) (duration : Duration) (made now : Time) (b : Backend fl)
      (es : List (Text × Ptr))
      → 1 ≤ size
      → Valid fl size b es
      → (b' : Backend fl) × (block fl k duration made now b ≡ some b')
        × Updated size k (block_entry fl duration now (entry_or (made_default fl made b) k b)) b b'
  unfolding block
  block-Updated size k duration made now b es room v =
      let (b', p, fetches, f) =
        fetch-Fetched fl size k _ (made_default fl made b) b es room
          (default_entry-made fl made b v.allocates v.sized) v in
      let e = block_entry fl duration now (entry_or (made_default fl made b) k b) in
      (
        store fl p e b',
        rw (fetches, block) (rw f.entry refl),
        store-Updated size k (made_default fl made b) e b b' p f,
      )

  -- The entry that `IncrementViolation` leaves.
  abbrev pub violated : Time → IpEntry fl → IpEntry fl
  violated now e = record e {
    last_violation = unix now;
    violation_count = add_int32 e.violation_count (pos 1);
  }

  pub increment_violation-Updated :
      (size : ℕ) (k : Text) (made now : Time) (b : Backend fl) (es : List (Text × Ptr))
      → 1 ≤ size
      → Valid fl size b es
      → let e = violated now (entry_or (made_default fl made b) k b) in
        (b' : Backend fl) × (increment_violation fl k made now b ≡ some (b', e.violation_count))
        × Updated size k e b b'
  unfolding increment_violation
  increment_violation-Updated size k made now b es room v =
      let (b', p, fetches, f) =
        fetch-Fetched fl size k _ (made_default fl made b) b es room
          (default_entry-made fl made b v.allocates v.sized) v in
      let e = violated now (entry_or (made_default fl made b) k b) in
      (
        store fl p e b',
        rw (fetches, increment_violation) (rw f.entry refl),
        store-Updated size k (made_default fl made b) e b b' p f,
      )
