-- ===== src/Memory/Cache/Evict.antt =====
-- What `Remove` and the eviction of middleware/storage/memory/store.go do to the order of the cache.
use open_source.Common.{
  ◌≡◌, ◌≢◌, refl, ap, sym, ◌∙◌, false, List, [], ◌∷◌, ◌++◌, none, some, arith, ◌==◌, if◌then◌else◌,
  Option-cases, inl, inr, Text, text_eq, text_eq_iff, lookup, delete, Keyed, lookup-delete,
  delete-Keyed,
}
use open_source.Memory.Cache.{Ptr, Links, LruCache, remove, evict, key_of, delete_entry}
use open_source.Memory.Cache.Chain.{Distinct, Linked, unlinked, has-snoc}
use open_source.Memory.Cache.Threaded.{remove_from_list-Threaded}
use open_source.Memory.Cache.Order.{
  ptrs, Ordered, lookup-has, ptrs-delete, delete_absent, length_deleted,
}

-- The order without its last entry, which is the least recently used.
unfoldable pub drop_last : List (Text × Ptr) → List (Text × Ptr)
drop_last [] = []
drop_last (x ∷ []) = []
drop_last (x ∷ y ∷ es) = x ∷ drop_last (y ∷ es)

last_entry : Text × Ptr → List (Text × Ptr) → Text × Ptr
last_entry x [] = x
last_entry x (y ∷ es) = last_entry y es

-- The last entry is what the prev pointer of the end leads to.
prev_end :
    (l : Links) (a z : Ptr) (x : Text × Ptr) (es : List (Text × Ptr))
    → Linked l a (ptrs (x ∷ es)) z
    → l.prev z ≡ (last_entry x es).1
unfolding last_entry
prev_end l a z (k, p) [] h = h.2.1
prev_end l a z (k, p) ((j, q) ∷ es) h = prev_end l p z (j, q) es h.2

last_entry-lookup :
    (x : Text × Ptr) (es : List (Text × Ptr))
    → Keyed (x ∷ es)
    → lookup (last_entry x es).0 (x ∷ es) ≡ some (last_entry x es).1
unfolding last_entry lookup
last_entry-lookup (k, p) [] d = ground (arith, text_eq_iff k k)
last_entry-lookup (k, p) (y ∷ es) d =
    let last = (last_entry y es).0 in ground (arith, last_entry-lookup y es, text_eq_iff k last)

drop_last-delete :
    (x : Text × Ptr) (es : List (Text × Ptr))
    → Keyed (x ∷ es)
    → delete (last_entry x es).0 (x ∷ es) ≡ drop_last (x ∷ es)
unfolding last_entry lookup delete drop_last
drop_last-delete (k, p) [] d = ground (arith, text_eq_iff k k)
drop_last-delete (k, p) (y ∷ es) d =
    let last = (last_entry y es).0 in
    ground (arith, last_entry-lookup y es, text_eq_iff k last, drop_last-delete y es)

-- Two keys with one entry are one key.
key_unique :
    (j k : Text) (p z : Ptr) (es : List (Text × Ptr))
    → Distinct (ptrs es ++ z ∷ [])
    → lookup j es ≡ some p
    → lookup k es ≡ some p
    → j ≡ k
unfolding lookup
key_unique j k p z [] d e f = ground arith
key_unique j k p z ((i, q) ∷ es) d e f = ground (
  arith,
  text_eq_iff i j,
  text_eq_iff i k,
  key_unique j k p z es,
  lookup-has j es p,
  lookup-has k es p,
  has-snoc q (ptrs es) z,
)

key_of-lookup :
    (p : Ptr) (j : Text) (m : List (Text × Ptr))
    → Keyed m
    → key_of p m ≡ some j
    → lookup j m ≡ some p
unfolding key_of lookup
key_of-lookup p j [] d h = ground arith
key_of-lookup p j ((i, q) ∷ m) d h = ground (arith, key_of-lookup p j m, text_eq_iff i j)

key_of-none : (p : Ptr) (k : Text) (m : List (Text × Ptr)) → key_of p m ≡ none → lookup k m ≢ some p
unfolding key_of lookup
key_of-none p k [] h = ground arith
key_of-none p k ((i, q) ∷ m) h = ground (arith, key_of-none p k m)

-- The scan over the map finds the one key of an entry.
key_of_unique :
    (k : Text) (p : Ptr) (c : LruCache) (es : List (Text × Ptr))
    → Ordered c es
    → lookup k es ≡ some p
    → key_of p c.items ≡ some k
key_of_unique k p c es o h = elim (Option-cases (key_of p c.items)) [
  | inl lost ↦ absurd (key_of-none p k c.items lost (o.same k ∙ h))
  | inr (j, found) ↦
      let there = sym (o.same j) ∙ key_of-lookup p j c.items o.keyed_items found in
      found ∙ ap some (key_unique j k p c.tail es o.threaded.apart.1 there h)
]

-- An entry is unlinked and its key deleted: what `Remove` does, and the eviction for the last.
dropped-Ordered :
    (k : Text) (p : Ptr) (c : LruCache) (es : List (Text × Ptr))
    → Ordered c es
    → lookup k es ≡ some p
    → Ordered (record c { links = unlinked c.links p; items = delete k c.items }) (delete k es)
dropped-Ordered k p c es o h =
    let (removed, t, gone) =
      remove_from_list-Threaded c.links c.head (ptrs es) c.tail p (lookup-has k es p h)
        o.threaded in
    record {
      threaded = rw (ptrs-delete k es c.tail o.threaded.apart.1 h) t;
      keyed_items = delete-Keyed k c.items o.keyed_items;
      keyed = delete-Keyed k es o.keyed;
      same = λ j.
          lookup-delete k j c.items o.keyed_items
          ∙ ap (λ v. if text_eq k j then none else v) (o.same j)
          ∙ sym (lookup-delete k j es o.keyed);
      size = omega (
        arith,
        o.size,
        length_deleted k es {p = p} h,
        length_deleted k c.items {p = p} (o.same k ∙ h),
      );
    }

-- On a cache whose map and list agree, `Remove` drops the key, if it is there, from both, and
-- panics nowhere.
pub remove-Ordered :
    (k : Text) (c : LruCache) (es : List (Text × Ptr))
    → Ordered c es
    → (c' : LruCache) × (remove k c ≡ some c') × Ordered c' (delete k es)
unfolding remove
remove-Ordered k c es o = elim (Option-cases (lookup k c.items)) [
  | inl miss ↦ (c, rw (miss, remove), rw (delete_absent k es (sym (o.same k) ∙ miss)) o)
  | inr (p, hit) ↦
      let found = sym (o.same k) ∙ hit in
      let (removed, t, gone) =
        remove_from_list-Threaded c.links c.head (ptrs es) c.tail p (lookup-has k es p found)
          o.threaded in
      (
        record c { links = unlinked c.links p; items = delete k c.items },
        rw (hit, remove) (rw removed),
        dropped-Ordered k p c es o found,
      )
]

-- The eviction drops the least recently used entry from the list and its key from the map.
pub evict-Ordered :
    (c : LruCache) (x : Text × Ptr) (es : List (Text × Ptr))
    → Ordered c (x ∷ es)
    → (c' : LruCache) × (evict c ≡ some c')
      × Ordered c' (drop_last (x ∷ es))
      × (c'.capacity ≡ c.capacity)
      × (c'.head ≡ c.head)
      × (c'.tail ≡ c.tail)
unfolding evict
evict-Ordered c x es o =
    let k = (last_entry x es).0 in
    let p = (last_entry x es).1 in
    let found = last_entry-lookup x es o.keyed in
    let back = prev_end c.links c.head c.tail x es o.threaded.chain in
    let there = lookup-has k (x ∷ es) p found in
    let not_head : (p == c.head) ≡ false = ground (arith, has-snoc c.head (ptrs (x ∷ es)) c.tail) in
    let (removed, t, gone) =
      remove_from_list-Threaded c.links c.head (ptrs (x ∷ es)) c.tail p there o.threaded in
    (
      record c { links = unlinked c.links p; items = delete k c.items },
      rw (back, evict)
          (rw not_head (rw removed (rw (key_of_unique k p c (x ∷ es) o found, delete_entry)))),
      rw (← drop_last-delete x es o.keyed) (dropped-Ordered k p c (x ∷ es) o found),
      refl,
      refl,
      refl,
    )
