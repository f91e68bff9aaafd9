-- ===== src/Memory/Backend/Fetch.antt =====
-- The lookup that opens every method of the backend of middleware/storage/memory/store.go.
use open_source.Common.{
  ℕ, ◌+◌, ◌≤◌, ◌≡◌, ◌≢◌, refl, ap, sym, ◌∙◌, ◌⊎◌, inl, inr, false, List, [], ◌∷◌, ◌++◌, Option,
  none, some, arith, ◌==◌, if◌then◌else◌, Option-cases, Text, lookup, Keyed,
}
use open_source.Common.Int.{pos}
use open_source.Common.Float.{Float64}
use open_source.Memory.Cache
use open_source.Memory.Cache.{Ptr, LruCache, ◌>>=◌}
use open_source.Memory.Cache.Chain.{has, ne_of_has}
use open_source.Memory.Cache.Order.{ptrs, touch, lookup-has}
use open_source.Memory.Cache.Add.{added, add-Ordered, length-added}
use open_source.Memory.Entry.{IpEntry}
use open_source.Memory.Backend.{Backend, fetch, store}
use open_source.Memory.Backend.State.{
  Valid, entry_at, get-Valid, still_unused, unused_inner, has-added, lookup-added,
  lookup-added_self,
}

-- A key that is in the order has an address in use.
apart :
    (j : Text) (q x head tail : Ptr) (es : List (Text × Ptr))
    → has x (head ∷ ptrs es ++ tail ∷ []) ≡ false
    → lookup j es ≡ some q
    → (q == x) ≡ false
apart j q x head tail es u found =
    ne_of_has q x (ptrs es) (lookup-has j es q found) (unused_inner x head tail (ptrs es) u)

-- Of another key the cache holds, after an addition, what it held or nothing.
elsewhere :
    (size : ℕ) (k j : Text) (p : Ptr) (new old same : List (Text × Ptr)) (es : List (Text × Ptr))
    → k ≢ j
    → Keyed (touch k es)
    → lookup j new ≡ lookup j (added (pos size) k p (touch k es))
    → lookup j same ≡ lookup j (touch k es)
    → same ≡ old
    → (lookup j new ≡ lookup j old) ⊎ (lookup j new ≡ none)
elsewhere size k j p new old same es n d in_new in_same e =
    elim (lookup-added (pos size) k j p (touch k es) d n) [
      | inl found ↦ inl (in_new ∙ found ∙ sym in_same ∙ ap (lookup j) e)
      | inr gone ↦ inr (in_new ∙ gone)
    ]

module _ (fl : Float64) where
  -- What `fetch` leaves behind.
  pub record Fetched (size : ℕ) (k : Text) (new : IpEntry fl) (b b' : Backend fl) (p : Ptr)
      : Type 0 where
    pub order : List (Text × Ptr)
    pub valid : Valid fl size b' order
    pub here : lookup k b'.cache.items ≡ some p
    pub entry : b'.entries p ≡ (elim (entry_at fl k b) [ none ↦ new | some e ↦ e ])
    pub others :
        (j : Text) → k ≢ j → (entry_at fl j b' ≡ entry_at fl j b) ⊎ (entry_at fl j b' ≡ none)

  add-Valid :
      (size : ℕ) (k : Text) (new : IpEntry fl) (b : Backend fl) (es : List (Text × Ptr))
      → Valid fl size b es
      → (c : LruCache) × (Cache.add k b.fresh b.cache ≡ some c)
        × Valid fl size
            (record (store fl b.fresh new b) { cache = c; fresh = b.fresh + 1 })
            (added (pos size) k b.fresh es)
  unfolding store
  add-Valid size k new b es v =
      let (c, adds, o, capacity, at_head, at_tail) =
        add-Ordered k b.fresh b.cache es (ground (arith, v.started))
          (v.unused b.fresh (omega arith)) v.ordered in
      (
        c,
        adds,
        record {
          ordered = rw (← v.capacity) o;
          capacity = capacity ∙ v.capacity;
          bounded = length-added size k b.fresh es v.bounded;
          started = omega arith;
          allocates = v.allocates;
          sized = v.sized;
          unused = λ x h.
              still_unused x (ptrs es) (ptrs (added (pos size) k b.fresh es)) at_head at_tail
                (v.unused x (omega arith)) (has-added x (pos size) k b.fresh es (ground arith));
        },
      )

  abbrev at : (Ptr → IpEntry fl) → Option Ptr → Option (IpEntry fl)
  at f o = elim o [ none ↦ none | some p ↦ some (f p) ]

  -- An entry under a new address changes what no other address holds.
  kept :
      (x : Ptr) (new : IpEntry fl) (f : Ptr → IpEntry fl) (o : Option Ptr) {o' : Option Ptr}
      → (o' ≡ o) ⊎ (o' ≡ none)
      → ((q : Ptr) → o ≡ some q → (q == x) ≡ false)
      → (at (λ q. if q == x then new else f q) o' ≡ at f o)
        ⊎ (at (λ q. if q == x then new else f q) o' ≡ none)
  kept x new f o (inl e) d = inl (ap (at (λ q. if q == x then new else f q)) e ∙ same o d)
    where
      same :
          (o : Option Ptr)
          → ((q : Ptr) → o ≡ some q → (q == x) ≡ false)
          → at (λ q. if q == x then new else f q) o ≡ at f o
      same none d = refl
      same (some q) d = rw (d q refl)
  kept x new f o (inr e) d = inr (ap (at (λ q. if q == x then new else f q)) e)

  fetch-hit :
      (size : ℕ) (k : Text) (new : IpEntry fl) (b : Backend fl) (es : List (Text × Ptr)) (p : Ptr)
      → Valid fl size b es
      → lookup k b.cache.items ≡ some p
      → (b' : Backend fl) × (fetch fl k (some new) b ≡ some (b', p)) × Fetched size k new b b' p
  unfolding fetch
  fetch-hit size k new b es p v hit =
      let (c, got, v', items) = get-Valid fl size k b es v in
      (
        record b { cache = c },
        rw (got, fetch) (rw hit),
        record {
          order = touch k es;
          valid = v';
          here = ap (lookup k) items ∙ hit;
          entry = rw hit;
          others = λ j n. inl (ap (λ m. at b.entries (lookup j m)) items);
        },
      )

  fetch-miss :
      (size : ℕ) (k : Text) (new : IpEntry fl) (b : Backend fl) (es : List (Text × Ptr))
      → 1 ≤ size
      → Valid fl size b es
      → lookup k b.cache.items ≡ none
      → (b' : Backend fl) × (fetch fl k (some new) b ≡ some (b', b.fresh))
        × Fetched size k new b b' b.fresh
  unfolding fetch store
  fetch-miss size k new b es room v miss =
      let (c, got, v', items) = get-Valid fl size k b es v in
      let (c', adds, v'') = add-Valid size k new (record b { cache = c }) (touch k es) v' in
      (
        record (store fl b.fresh new b) { cache = c'; fresh = b.fresh + 1 },
        rw (got, fetch) (rw miss (rw adds)),
        record {
          order = added (pos size) k b.fresh (touch k es);
          valid = v'';
          here = v''.ordered.same k ∙ lookup-added_self size k b.fresh (touch k es) room;
          entry = rw miss (ground arith);
          others = λ j n.
              kept b.fresh new b.entries (lookup j b.cache.items)
                (elsewhere size k j b.fresh c'.items b.cache.items c.items es n v'.ordered.keyed
                  (v''.ordered.same j) (v'.ordered.same j) items)
                (λ q found.
                  apart j q b.fresh b.cache.head b.cache.tail es (v.unused b.fresh (omega arith))
                    (sym (v.ordered.same j) ∙ found));
        },
      )

  -- With room for one entry, the lines that open a method panic nowhere, if a new
  -- entry can be made. They find the entry that the key has, or add the new one.
  pub fetch-Fetched :
      (size : ℕ) (k : Text) (made : Option (IpEntry fl)) (new : IpEntry fl) (b : Backend fl)
      (es : List (Text × Ptr))
      → 1 ≤ size
      → made ≡ some new
      → Valid fl size b es
      → (b' : Backend fl) × (p : Ptr) × (fetch fl k made b ≡ some (b', p))
        × Fetched size k new b b' p
  fetch-Fetched size k made new b es room m v =
      let same = ap (λ o. fetch fl k o b) m in
      elim (Option-cases (lookup k b.cache.items)) [
        | inl miss ↦
            let (b', e, f) = fetch-miss size k new b es room v miss in (b', b.fresh, same ∙ e, f)
        | inr (p, hit) ↦ let (b', e, f) = fetch-hit size k new b es p v hit in (b', p, same ∙ e, f)
      ]
