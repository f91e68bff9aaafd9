-- ===== src/Memory/Cache/Order.antt =====
-- The cache against a list of keys and entries, the most recently used first.
use open_source.Common.{
  suc, ◌≡◌, refl, sym, ◌∙◌, true, List, [], ◌∷◌, ◌++◌, none, some, arith, Option-cases, inl, inr,
  length, Text, text_eq_iff, lookup, delete, Keyed, lookup-delete, delete-Keyed, length-delete,
}
use open_source.Memory.Cache.{Ptr, LruCache, get}
use open_source.Memory.Cache.Chain.{has, Distinct, erase, unlinked, pushed, has-snoc}
use open_source.Memory.Cache.Threaded.{Threaded, move_to_front-Threaded}

abbrev pub ptrs : List (Text × Ptr) → List Ptr
ptrs [] = []
ptrs ((k, p) ∷ es) = p ∷ ptrs es

-- The map and the list hold the same entries, in the order `es`.
pub record Ordered (c : LruCache) (es : List (Text × Ptr)) : Type 0 where
  pub threaded : Threaded c.links c.head (ptrs es) c.tail
  pub keyed_items : Keyed c.items
  pub keyed : Keyed es
  pub same : (k : Text) → lookup k c.items ≡ lookup k es
  pub size : length c.items ≡ length es

pub lookup-has :
    (k : Text) (es : List (Text × Ptr)) (p : Ptr) → lookup k es ≡ some p → has p (ptrs es) ≡ true
unfolding lookup
lookup-has k [] p h = ground arith
lookup-has k ((j, q) ∷ es) p h = ground (arith, lookup-has k es p)

pub ptrs-delete :
    (k : Text) (es : List (Text × Ptr)) (z : Ptr) {p : Ptr}
    → Distinct (ptrs es ++ z ∷ [])
    → lookup k es ≡ some p
    → ptrs (delete k es) ≡ erase p (ptrs es)
unfolding lookup delete erase
ptrs-delete k [] z d h = refl
ptrs-delete k ((j, q) ∷ es) z {p} d h =
    ground (arith, ptrs-delete k es z {p = p}, lookup-has k es p, has-snoc q (ptrs es) z)

pub delete_absent : (k : Text) (es : List (Text × Ptr)) → lookup k es ≡ none → delete k es ≡ es
unfolding lookup delete
delete_absent k [] h = refl
delete_absent k ((j, q) ∷ es) h = ground (arith, delete_absent k es)

-- What `get` does to the order.
unfoldable pub touch : Text → List (Text × Ptr) → List (Text × Ptr)
touch k es = elim (lookup k es) [ none ↦ es | some p ↦ (k, p) ∷ delete k es ]

pub lookup-touch :
    (k j : Text) (p : Ptr) (es : List (Text × Ptr))
    → Keyed es
    → lookup k es ≡ some p
    → lookup j ((k, p) ∷ delete k es) ≡ lookup j es
unfolding lookup
lookup-touch k j p es d h = ground (arith, lookup-delete k j es, text_eq_iff k j)

pub deleted : (k : Text) (es : List (Text × Ptr)) → Keyed es → lookup k (delete k es) ≡ none
deleted k es d = ground (arith, lookup-delete k k es, text_eq_iff k k)

pub length_deleted :
    (k : Text) (es : List (Text × Ptr)) {p : Ptr}
    → lookup k es ≡ some p
    → suc (length (delete k es)) ≡ length es
length_deleted k es h = ground (arith, length-delete k es)

-- On a cache whose map and list agree, `Get` returns the entry that the map holds, panics
-- nowhere, and moves the entry to the front of the order; the map stays as it is.
pub get-Ordered :
    (k : Text) (c : LruCache) (es : List (Text × Ptr))
    → Ordered c es
    → (c' : LruCache) × (get k c ≡ some (c', lookup k c.items))
      × Ordered c' (touch k es)
      × (c'.items ≡ c.items)
      × (c'.capacity ≡ c.capacity)
      × (c'.head ≡ c.head)
      × (c'.tail ≡ c.tail)
unfolding get touch
get-Ordered k c es o = elim (Option-cases (lookup k c.items)) [
  | inl miss ↦ (c, rw (miss, get), rw (sym (o.same k) ∙ miss, touch) o, refl, refl, refl, refl)
  | inr (p, hit) ↦
      let found = sym (o.same k) ∙ hit in
      let (moved, t) =
        move_to_front-Threaded c.links c.head (ptrs es) c.tail p (lookup-has k es p found)
          o.threaded in
      (
        record c { links = pushed (unlinked c.links p) c.head p },
        rw (hit, get) (rw moved),
        rw (found, touch)
            (record {
              threaded = rw (ptrs-delete k es c.tail o.threaded.apart.1 found) t;
              keyed_items = o.keyed_items;
              keyed = (deleted k es o.keyed, delete-Keyed k es o.keyed);
              same = λ j. o.same j ∙ sym (lookup-touch k j p es o.keyed found);
              size = o.size ∙ sym (length_deleted k es found);
            }),
        refl,
        refl,
        refl,
        refl,
      )
]
