-- ===== src/Memory/Cache/Add.antt =====
-- What `Add` of middleware/storage/memory/store.go does to the order of the cache.
use open_source.Common.{
  ℕ, suc, ◌≤◌, ◌≡◌, refl, ap, sym, ◌∙◌, false, List, [], ◌∷◌, ◌++◌, some, arith, ◌==◌,
  if◌then◌else◌, Bool-cases, Option-cases, inl, inr, length, Text, lookup, insert, delete,
  lookup-insert, lookup-delete, insert-Keyed, delete-Keyed, length-insert, length-delete,
}
use open_source.Common.Int.{ℤ, pos, ltb_ℤ}
use open_source.Memory.Cache.{Ptr, Links, LruCache, add, add_to_front, unlink_existing}
use open_source.Memory.Cache.Chain.{has, unlinked, pushed, has-snoc}
use open_source.Memory.Cache.Threaded.{Threaded, remove_from_list-Threaded, add_to_front-Threaded}
use open_source.Memory.Cache.Order.{ptrs, Ordered, lookup-has, ptrs-delete, delete_absent, deleted}
use open_source.Memory.Cache.Evict.{drop_last, evict-Ordered}

-- The order with the key unlinked, before the new entry is put in front.
unlink_existing-Threaded :
    (k : Text) (c : LruCache) (es : List (Text × Ptr))
    → Ordered c es
    → (l : Links) × (unlink_existing k c ≡ some (record c { links = l }))
      × Threaded l c.head (ptrs (delete k es)) c.tail
unfolding unlink_existing
unlink_existing-Threaded k c es o = elim (Option-cases (lookup k c.items)) [
  | inl miss ↦ (
    c.links,
    rw (miss, unlink_existing),
    rw (delete_absent k es (sym (o.same k) ∙ miss)) o.threaded,
  )
  | inr (p, hit) ↦
      let found = sym (o.same k) ∙ hit in
      let (removed, t, gone) =
        remove_from_list-Threaded c.links c.head (ptrs es) c.tail p (lookup-has k es p found)
          o.threaded in
      (
        unlinked c.links p,
        rw (hit, unlink_existing) (rw removed),
        rw (ptrs-delete k es c.tail o.threaded.apart.1 found) t,
      )
]

-- The order after `Add`: the entry in front, and the last entry dropped if they are too many.
unfoldable pub added : ℤ → Text → Ptr → List (Text × Ptr) → List (Text × Ptr)
added capacity k e es =
    let es' = (k, e) ∷ delete k es in
    if ltb_ℤ capacity (pos (length es')) then drop_last es' else es'

has-delete :
    (x : Ptr) (k : Text) (es : List (Text × Ptr))
    → has x (ptrs es) ≡ false
    → has x (ptrs (delete k es)) ≡ false
unfolding delete
has-delete x k [] h = refl
has-delete x k ((j, q) ∷ es) h = ground (arith, has-delete x k es)

linked_in-Ordered :
    (k : Text) (e : Ptr) (l : Links) (c : LruCache) (es : List (Text × Ptr))
    → (e == 0) ≡ false
    → has e (c.head ∷ ptrs es ++ c.tail ∷ []) ≡ false
    → Ordered c es
    → Threaded l c.head (ptrs (delete k es)) c.tail
    → (l' : Links) × (add_to_front c.head e l ≡ some l')
      × Ordered (record c { links = l'; items = insert k e c.items }) ((k, e) ∷ delete k es)
unfolding lookup
linked_in-Ordered k e l c es n f o t =
    let free = has-delete e k es (ground (arith, has-snoc e (ptrs es) c.tail)) in
    let fresh : has e (c.head ∷ ptrs (delete k es) ++ c.tail ∷ []) ≡ false =
      ground (arith, has-snoc e (ptrs es) c.tail, has-snoc e (ptrs (delete k es)) c.tail) in
    let (pushes, t') = add_to_front-Threaded l c.head (ptrs (delete k es)) c.tail e n fresh t in
    (
      pushed l c.head e,
      pushes,
      record {
        threaded = t';
        keyed_items = insert-Keyed k e c.items o.keyed_items;
        keyed = (deleted k es o.keyed, delete-Keyed k es o.keyed);
        same = λ j. lookup_in j;
        size = ground (arith, length-insert k e c.items, length-delete k es, o.same k, o.size);
      },
    )
  where
    lookup_in : (j : Text) → lookup j (insert k e c.items) ≡ lookup j ((k, e) ∷ delete k es)
    lookup_in j =
        ground (arith, lookup-insert k j e c.items, lookup-delete k j es o.keyed, o.same j)

-- On a cache whose map and list agree, in the order `es`, `Add` of an entry at an address that is
-- not nil and not in use panics nowhere. It puts the entry in front under its key, in the place
-- of an entry that the key had, and then drops the least recently used entry if there are more
-- than the capacity.
pub add-Ordered :
    (k : Text) (e : Ptr) (c : LruCache) (es : List (Text × Ptr))
    → (e == 0) ≡ false
    → has e (c.head ∷ ptrs es ++ c.tail ∷ []) ≡ false
    → Ordered c es
    → (c' : LruCache) × (add k e c ≡ some c')
      × Ordered c' (added c.capacity k e es)
      × (c'.capacity ≡ c.capacity)
      × (c'.head ≡ c.head)
      × (c'.tail ≡ c.tail)
unfolding add added
add-Ordered k e c es n f o =
    let (l, unlinks, t) = unlink_existing-Threaded k c es o in
    let (l', pushes, o') = linked_in-Ordered k e l c es n f o t in
    let c' = record c { links = l'; items = insert k e c.items } in
    elim (Bool-cases (ltb_ℤ c.capacity (pos (suc (length (delete k es)))))) [
      | inl over ↦
          let (c'', evicts, o'', same, at_head, at_tail) =
            evict-Ordered c' (k, e) (delete k es) o' in
          (
            c'',
            rw (unlinks, add) (rw pushes (rw o'.size (rw over evicts))),
            rw (over, added) o'',
            same,
            at_head,
            at_tail,
          )
      | inr fits ↦ (
        c',
        rw (unlinks, add) (rw pushes (rw o'.size (rw fits))),
        rw (fits, added) o',
        refl,
        refl,
        refl,
      )
    ]

length-drop_last :
    (x : Text × Ptr) (es : List (Text × Ptr)) → length (drop_last (x ∷ es)) ≡ length es
unfolding drop_last
length-drop_last x [] = refl
length-drop_last x (y ∷ es) = ap suc (length-drop_last y es)

-- The cache never holds more than its capacity, if it did not before.
pub length-added :
    (cap : ℕ) (k : Text) (e : Ptr) (es : List (Text × Ptr))
    → length es ≤ cap
    → length (added (pos cap) k e es) ≤ cap
unfolding added
length-added cap k e es h =
    ground (arith, length-drop_last (k, e) (delete k es), length-delete k es)
