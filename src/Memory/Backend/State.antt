-- ===== src/Memory/Backend/State.antt =====
-- The state of the memory backend between calls, and the lookup that opens every method.
use open_source.Common.{
  ℕ, suc, ◌≤◌, ◌<◌, ◌≡◌, ◌≢◌, refl, ◌∙◌, ◌⊎◌, inl, inr, false, List, [], ◌∷◌, ◌++◌, Option, none,
  some, arith, ◌==◌, if◌then◌else◌, Bool-cases, Option-cases, length, Text, text_eq_iff, lookup,
  delete, Keyed, lookup-delete,
}
use open_source.Common.Int.{ℤ, pos, ltb_ℤ, ◌≤ℤ◌}
use open_source.Common.GoTime.{Duration, max_int64}
use open_source.Common.Float.{Float64}
use open_source.Memory.Cache
use open_source.Memory.Cache.{Ptr, LruCache, ◌>>=◌}
use open_source.Memory.Cache.Chain.{has, has-snoc, ne_of_has}
use open_source.Memory.Cache.Order.{ptrs, Ordered, touch, get-Ordered, lookup-has, length_deleted}
use open_source.Memory.Cache.Evict.{drop_last}
use open_source.Memory.Cache.Add.{added}
use open_source.Memory.Entry.{IpEntry, entry_limit}
use open_source.Memory.Backend.{Backend}

has-delete :
    (x : Ptr) (k : Text) (es : List (Text × Ptr))
    → has x (ptrs es) ≡ false
    → has x (ptrs (delete k es)) ≡ false
unfolding delete
has-delete x k [] h = refl
has-delete x k ((j, q) ∷ es) h = ground (arith, has-delete x k es)

has-drop_last :
    (x : Ptr) (es : List (Text × Ptr))
    → has x (ptrs es) ≡ false
    → has x (ptrs (drop_last es)) ≡ false
unfolding drop_last
has-drop_last x [] h = refl
has-drop_last x (y ∷ []) h = refl
has-drop_last x (y ∷ z ∷ es) h = ground (arith, has-drop_last x (z ∷ es))

pub has-added :
    (x : Ptr) (capacity : ℤ) (k : Text) (e : Ptr) (es : List (Text × Ptr))
    → (x == e) ≡ false
    → has x (ptrs es) ≡ false
    → has x (ptrs (added capacity k e es)) ≡ false
unfolding added
has-added x capacity k e es n h =
    ground (arith, has-delete x k es, has-drop_last x ((k, e) ∷ delete k es))

length-touch : (k : Text) (es : List (Text × Ptr)) → length (touch k es) ≡ length es
unfolding touch
length-touch k es = elim (Option-cases (lookup k es)) [
  | inl miss ↦ rw (miss, touch)
  | inr (p, hit) ↦ rw (hit, touch) (length_deleted k es {p = p} hit)
]

has-touch :
    (x : Ptr) (k : Text) (es : List (Text × Ptr))
    → has x (ptrs es) ≡ false
    → has x (ptrs (touch k es)) ≡ false
unfolding touch
has-touch x k es h = elim (Option-cases (lookup k es)) [
  | inl miss ↦ rw (miss, touch) h
  | inr (p, hit) ↦
      rw (hit, touch)
        (ground (arith, ne_of_has p x (ptrs es) (lookup-has k es p hit) h, has-delete x k es))
]

-- The last entry gone, a lookup finds what it found, or nothing.
lookup-drop_last :
    (j : Text) (es : List (Text × Ptr))
    → (lookup j (drop_last es) ≡ lookup j es) ⊎ (lookup j (drop_last es) ≡ none)
unfolding drop_last lookup
lookup-drop_last j [] = inl refl
lookup-drop_last j (y ∷ []) = inr refl
lookup-drop_last j (y ∷ z ∷ es) = ground (arith, lookup-drop_last j (z ∷ es))

pub lookup-added :
    (capacity : ℤ) (k j : Text) (e : Ptr) (es : List (Text × Ptr))
    → Keyed es
    → k ≢ j
    → (lookup j (added capacity k e es) ≡ lookup j es) ⊎ (lookup j (added capacity k e es) ≡ none)
unfolding added lookup
lookup-added capacity k j e es d n =
    ground
      (arith, lookup-drop_last j ((k, e) ∷ delete k es), lookup-delete k j es d, text_eq_iff k j)

-- With room for one entry, the new entry stays.
pub lookup-added_self :
    (size : ℕ) (k : Text) (e : Ptr) (es : List (Text × Ptr))
    → 1 ≤ size
    → lookup k (added (pos size) k e es) ≡ some e
unfolding added lookup drop_last
lookup-added_self size k e es h = stays (delete k es)
  where
    stays :
        (rest : List (Text × Ptr))
        → lookup k (
            if ltb_ℤ (pos size) (pos (suc (length rest)))
            then drop_last ((k, e) ∷ rest)
            else (k, e) ∷ rest)
          ≡ some e
    stays [] = ground (arith, text_eq_iff k k)
    stays (y ∷ rest) = elim (Bool-cases (ltb_ℤ (pos size) (pos (suc (length (y ∷ rest)))))) [
      | inl over ↦ rw over (ground (arith, text_eq_iff k k))
      | inr fits ↦ rw fits (ground (arith, text_eq_iff k k))
    ]

-- `x` is the address of nothing in use.
abbrev pub Unused : Ptr → LruCache → List (Text × Ptr) → Type 0
Unused x c es = has x (c.head ∷ ptrs es ++ c.tail ∷ []) ≡ false

pub still_unused :
    (x : Ptr) {head head' tail tail' : Ptr} (ps qs : List Ptr)
    → head' ≡ head
    → tail' ≡ tail
    → has x (head ∷ ps ++ tail ∷ []) ≡ false
    → (has x ps ≡ false → has x qs ≡ false)
    → has x (head' ∷ qs ++ tail' ∷ []) ≡ false
still_unused x {tail} {tail'} ps qs h t u keep =
    ground (arith, has-snoc x ps tail, has-snoc x qs tail')

pub unused_inner :
    (x head tail : Ptr) (ps : List Ptr) → has x (head ∷ ps ++ tail ∷ []) ≡ false → has x ps ≡ false
unused_inner x head tail ps u = ground (arith, has-snoc x ps tail)

-- A Duration is at most the greatest int64.
abbrev pub IsDuration : Duration → Type 0
IsDuration d = d ≤ℤ pos max_int64

module _ (fl : Float64) where
  -- The windows of new entries have limits below 2^62, so that they can be made.
  abbrev pub Allocates : fl.Float → ℤ → Type 0
  Allocates rps burst =
      (size : Duration) → IsDuration size → entry_limit fl rps burst size ≤ℤ pos 4611686018427387903

  -- The cache is in the order `es`, within its capacity, no address from `fresh` on is in use, and the
  -- rate and the burst allow the windows of new entries to be made.
  pub record Valid (size : ℕ) (b : Backend fl) (es : List (Text × Ptr)) : Type 0 where
    pub ordered : Ordered b.cache es
    pub capacity : b.cache.capacity ≡ pos size
    pub bounded : length es ≤ size
    pub started : 0 < b.fresh
    pub unused : (x : Ptr) → b.fresh ≤ x → Unused x b.cache es
    pub allocates : Allocates b.rps b.default_burst
    pub sized : IsDuration b.window_size

  -- The entry that the backend holds under a key.
  abbrev pub entry_at : Text → Backend fl → Option (IpEntry fl)
  entry_at k b = elim (lookup k b.cache.items) [ none ↦ none | some p ↦ some (b.entries p) ]

  pub get-Valid :
      (size : ℕ) (k : Text) (b : Backend fl) (es : List (Text × Ptr))
      → Valid size b es
      → (c : LruCache) × (Cache.get k b.cache ≡ some (c, lookup k b.cache.items))
        × Valid size (record b { cache = c }) (touch k es)
        × (c.items ≡ b.cache.items)
  get-Valid size k b es v =
      let (c, got, o, items, capacity, at_head, at_tail) = get-Ordered k b.cache es v.ordered in
      (
        c,
        got,
        record {
          ordered = o;
          capacity = capacity ∙ v.capacity;
          bounded = omega (arith, length-touch k es, v.bounded);
          started = v.started;
          allocates = v.allocates;
          sized = v.sized;
          unused = λ x h.
              still_unused x (ptrs es) (ptrs (touch k es)) at_head at_tail (v.unused x h)
                (has-touch x k es);
        },
        items,
      )
