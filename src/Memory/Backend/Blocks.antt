-- ===== src/Memory/Backend/Blocks.antt =====
-- Blocks, violations and limits over the calls of middleware/storage/memory/store.go.
use open_source.Common.{
  ℕ, ◌+◌, ◌≤◌, ◌<◌, ◌≡◌, refl, ap, ◌∙◌, inl, inr, Bool, true, false, List, Option, none, some,
  arith, ltb, if◌then◌else◌, is_some, Bool-cases, Option-cases, Text, lookup,
}
use open_source.Common.Int.{ℤ, pos, ltb_ℤ}
use open_source.Common.GoTime.{Time, Duration, before, add, until_or_zero}
use open_source.Common.Float.{Float64}
use open_source.Memory.Cache.{Ptr}
use open_source.Memory.Cache.Order.{touch}
use open_source.Memory.Window.{SlidingWindow}
use open_source.Memory.Backend.Fetch.{fetch-Fetched}
use open_source.Memory.Entry
use open_source.Memory.Entry.{IpEntry, new_ip_entry, is_blocked}
use open_source.Memory.Backend.{
  Backend, read, window_of, allow_entry, allow_sliding_window, block_entry, block, is_key_blocked,
}
use open_source.Memory.Backend.State.{IsDuration, Valid, entry_at, get-Valid}
use open_source.Memory.Backend.Made.{made_entry, new_ip_entry-made, made_default}
use open_source.Memory.Backend.Updates.{entry_or, allow_sliding_window-Updated, block-Updated}

module _ (fl : Float64) where
  -- A method that only reads answers from the entry of the key, and keeps all entries.
  pub read-Valid :
      {A : Type 0} (size : ℕ) (k : Text) (absent : A) (f : IpEntry fl → A) (b : Backend fl)
      (es : List (Text × Ptr))
      → Valid fl size b es
      → (b' : Backend fl) × (read fl k absent f b
          ≡ some (b', elim (entry_at fl k b) [ none ↦ absent | some e ↦ f e ]))
        × Valid fl size b' (touch k es)
        × ((j : Text) → entry_at fl j b' ≡ entry_at fl j b)
  unfolding read
  read-Valid size k absent f b es v =
      let (c, got, v', items) = get-Valid fl size k b es v in
      let b' = record b { cache = c } in
      (
        b',
        rw (got, read)
            (elim (Option-cases (lookup k b.cache.items)) [
              | inl miss ↦ rw (miss, entry_at)
              | inr (p, hit) ↦ rw (hit, entry_at)
            ]),
        v',
        λ j. rw (items, entry_at),
      )

  -- On a valid backend with room for one entry, after `Block` of a key, `IsBlocked` of the key at
  -- the instant `t` answers whether `t` is before the end of the block, and that end; after
  -- `Block` with a negative duration it answers that the key is not blocked. Neither call panics.
  pub block-is_key_blocked :
      (size : ℕ) (k : Text) (duration : Duration) (made now t : Time) (b : Backend fl)
      (es : List (Text × Ptr))
      → 1 ≤ size
      → Valid fl size b es
      → (b' : Backend fl) × (block fl k duration made now b ≡ some b')
        × (b'' : Backend fl) × (is_key_blocked fl k t b'
            ≡ some (
              b'',
              if ltb_ℤ duration (pos 0)
                  then (false, 0)
                  else (before t (add now duration), add now duration),
            ))
  unfolding is_key_blocked block_entry is_blocked
  block-is_key_blocked size k duration made now t b es room v =
      let (b', blocks, u) = block-Updated fl size k duration made now b es room v in
      let (b'', reads, valid, same) =
        read-Valid {A = Bool × Time} size k (false, 0) (λ e. (is_blocked fl t e, e.blocked_until))
          b' u.order u.valid in
      (
        b',
        blocks,
        b'',
        reads
            ∙ rw (u.here) (elim (Bool-cases (ltb_ℤ duration (pos 0))) [
              | inl negative ↦ rw negative (ground arith)
              | inr positive ↦ rw positive
            ]),
      )

  -- The window of the entry of a key.
  abbrev pub window_at : Text → Backend fl → Option SlidingWindow
  window_at k b = elim (entry_at fl k b) [ none ↦ none | some e ↦ e.sliding_window ]

  block_entry_lem :
      (d : ℕ) (now : Time) (e : IpEntry fl)
      → block_entry fl (pos d) now e ≡ record e { blocked_until = now + d }
  unfolding block_entry
  block_entry_lem d now e =
      let positive : ltb_ℤ (pos d) (pos 0) ≡ false = ground arith in
      let end : add now (pos d) ≡ now + d = ground arith in
      rw positive (ap (λ t. record e { blocked_until = t }) end)

  allow_entry-blocked :
      (d : ℕ) (limit : ℤ) (window_size : Duration) (now seen checked left counted : Time)
      (e : IpEntry fl)
      → checked < now + d
      → let e' = Entry.touch fl seen (record e { blocked_until = now + d }) in
        allow_entry fl limit window_size checked left counted e'
        ≡ some (e', (false, until_or_zero left (now + d)))
  unfolding allow_entry is_blocked Entry.touch
  allow_entry-blocked d limit window_size now seen checked left counted e early =
      let early' : ltb checked (now + d) ≡ true = ground arith in rw early'

  -- On a valid backend with room for one entry, a request for a key that is checked before the
  -- end of a block of the key is refused, with the rest of the block as the time to wait, and
  -- consumes no place in the window of the key.
  pub block-allow_sliding_window :
      (size : ℕ) (k : Text) (d limit : ℕ) (window_size : Duration)
      (made now seen checked left counted : Time) (b : Backend fl) (es : List (Text × Ptr))
      → 1 ≤ size
      → Valid fl size b es
      → checked < now + d
      → IsDuration window_size
      → (b' : Backend fl) × (block fl k (pos d) made now b ≡ some b')
        × (b'' : Backend fl) × (allow_sliding_window fl k
              (pos limit)
              window_size
              made
              seen
              checked
              left
              counted
              b'
            ≡ some (b'', (false, until_or_zero left (now + d))))
        × (window_at k b'' ≡ window_at k b')
  unfolding Entry.touch
  block-allow_sliding_window size k d limit window_size made now seen checked left counted b es room
        v early d_size =
      let (b', blocks, u) = block-Updated fl size k (pos d) made now b es room v in
      let e = entry_or fl (made_default fl made b) k b in
      let blocked_lem = block_entry_lem d now e in
      let refusal =
        allow_entry-blocked d (pos limit) window_size now seen checked left counted e early in
      let (b'', denies, u') =
        allow_sliding_window-Updated fl size k (pos limit) window_size made seen checked left
          counted b' u.order
          (
            Entry.touch fl seen (record e { blocked_until = now + d }),
            (false, until_or_zero left (now + d)),
          )
          room d_size u.valid (rw (u.here, entry_or) (rw (blocked_lem, refusal) refl)) in
      (
        b',
        blocks,
        b'',
        denies,
        rw (u'.here, window_at) (rw (u.here, window_at) (rw blocked_lem refl)),
      )

  allow_entry-windowed :
      (limit limit' : ℤ) (window_size : Duration) (checked left counted : Time) (e : IpEntry fl)
      → is_some e.sliding_window ≡ true
      → allow_entry fl limit window_size checked left counted e
        ≡ allow_entry fl limit' window_size checked left counted e
  unfolding allow_entry window_of
  allow_entry-windowed limit limit' window_size checked left counted e h =
      elim (Option-cases e.sliding_window) [
        | inl miss ↦ ground (arith, miss)
        | inr (sw, some_window) ↦ rw (some_window, window_of) refl
      ]

  windowed_or :
      (k : Text) (window_size : Duration) (made : Time) (b : Backend fl)
      → ((e : IpEntry fl) → entry_at fl k b ≡ some e → is_some e.sliding_window ≡ true)
      → is_some
          (entry_or fl
            (made_entry fl b.rps b.default_burst true window_size made)
            k
            b).sliding_window
        ≡ true
  windowed_or k window_size made b h = elim (Option-cases (entry_at fl k b)) [
    | inl miss ↦ rw (miss, entry_or)
    | inr (e, hit) ↦ rw (hit, entry_or) (h e hit)
  ]

  -- On a valid backend with room for one entry, `AllowSlidingWindow` ignores its limit for a key
  -- that has no entry yet, and for a key whose entry has a window: every limit gives the same
  -- answer and the same state.
  pub allow_sliding_window-limit_ignored :
      (size : ℕ) (k : Text) (limit limit' : ℤ) (window_size : Duration)
      (made seen checked left counted : Time) (b : Backend fl) (es : List (Text × Ptr))
      → 1 ≤ size
      → Valid fl size b es
      → ((e : IpEntry fl) → entry_at fl k b ≡ some e → is_some e.sliding_window ≡ true)
      → IsDuration window_size
      → allow_sliding_window fl k limit window_size made seen checked left counted b
        ≡ allow_sliding_window fl k limit' window_size made seen checked left counted b
  unfolding allow_sliding_window Entry.touch
  allow_sliding_window-limit_ignored size k limit limit' window_size made seen checked left counted
        b es room v h d_size =
      let new = made_entry fl b.rps b.default_burst true window_size made in
      let makes =
        new_ip_entry-made fl b.rps b.default_burst true window_size made v.allocates d_size in
      let (b', p, fetches, f) = fetch-Fetched fl size k _ new b es room makes v in
      let windowed : is_some (b'.entries p).sliding_window ≡ true =
        rw f.entry (windowed_or k window_size made b h) in
      let same =
        allow_entry-windowed limit limit' window_size checked left counted
          (Entry.touch fl seen (b'.entries p)) windowed in
      rw (fetches, allow_sliding_window) (rw same refl)
