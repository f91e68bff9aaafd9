-- ===== src/Memory/Cache.antt =====
-- lruCache of middleware/storage/memory/store.go: a map from keys to entries, which are also threaded
-- on a doubly linked list between two sentinels. An entry is its address; its links live in two
-- memories, of the next and of the prev fields. The mutex makes each operation one step.
pub mod Chain
pub mod Threaded
pub mod Order
pub mod Evict
pub mod Add
use open_source.Common.{
  ℕ, suc, ◌+◌, Bool, true, false, List, [], ◌∷◌, Option, none, some, ◌==◌, if◌then◌else◌, length,
  Text, lookup, insert, delete,
}
use open_source.Common.Int.{ℤ, pos, ltb_ℤ}

-- 0 is nil.
abbrev pub Ptr : Type 0
Ptr = ℕ

pub record Links : Type 0 where
  pub next : Ptr → Ptr
  pub prev : Ptr → Ptr

abbrev pub update : (Ptr → Ptr) → Ptr → Ptr → Ptr → Ptr
update f p q a = if a == p then q else f a

-- `none` is the panic of an assignment through a nil pointer.
infixl 5 ◌>>=◌
abbrev pub ◌>>=◌ {ℓ κ} : {A : Type ℓ} {B : Type κ} → Option A → (A → Option B) → Option B
none >>= f = none
some a >>= f = f a

unfoldable pub set_next : Ptr → Ptr → Links → Option Links
set_next p q l = if p == 0 then none else some (record l { next = update l.next p q })

unfoldable pub set_prev : Ptr → Ptr → Links → Option Links
set_prev p q l = if p == 0 then none else some (record l { prev = update l.prev p q })

unfoldable pub add_to_front : Ptr → Ptr → Links → Option Links
unfolding set_next set_prev
add_to_front head e l = do
  l₁ ← set_next e (l.next head) l
  l₂ ← set_prev e head l₁
  l₃ ← set_prev (l₂.next head) e l₂
  set_next head e l₃

unfoldable pub remove_from_list : Ptr → Links → Option Links
unfolding set_next set_prev
remove_from_list e l = do l₁ ← set_next (l.prev e) (l.next e) l; set_prev (l₁.next e) (l₁.prev e) l₁

unfoldable pub move_to_front : Ptr → Ptr → Links → Option Links
unfolding remove_from_list add_to_front
move_to_front head e l = do l₁ ← remove_from_list e l; add_to_front head e l₁

pub record LruCache : Type 0 where
  pub capacity : ℤ  -- int
  pub items : List (Text × Ptr)
  pub head : Ptr
  pub tail : Ptr
  pub links : Links

-- The two sentinels are fresh addresses.
unfoldable pub new_lru_cache : ℤ → (head tail : Ptr) → Links → Option LruCache
unfolding set_next set_prev
new_lru_cache capacity head tail l = do
  l₁ ← set_next head tail l
  l₂ ← set_prev tail head l₁
  some (record { capacity = capacity; items = []; head = head; tail = tail; links = l₂ })

unfoldable pub get : Text → LruCache → Option (LruCache × Option Ptr)
unfolding move_to_front
get key c = elim (lookup key c.items) [
  | none ↦ some (c, none)
  | some e ↦ do l ← move_to_front c.head e c.links; some (record c { links = l }, some e)
]

-- The key of an entry, by the scan over the map.
unfoldable pub key_of : Ptr → List (Text × Ptr) → Option Text
key_of p [] = none
key_of p ((k, q) ∷ m) = if q == p then some k else key_of p m

unfoldable pub delete_entry : Ptr → List (Text × Ptr) → List (Text × Ptr)
unfolding key_of
delete_entry p m = elim (key_of p m) [ none ↦ m | some k ↦ delete k m ]

unfoldable pub evict : LruCache → Option LruCache
unfolding remove_from_list delete_entry
evict c =
    let back = c.links.prev c.tail in
    if back == c.head then some c else do
      l ← remove_from_list back c.links
      some (record c { links = l; items = delete_entry back c.items })

-- An entry under a key that is there already is unlinked first.
unfoldable pub unlink_existing : Text → LruCache → Option LruCache
unfolding remove_from_list
unlink_existing key c = elim (lookup key c.items) [
  | none ↦ some c
  | some e ↦ do l ← remove_from_list e c.links; some (record c { links = l })
]

unfoldable pub add : Text → Ptr → LruCache → Option LruCache
add key e c = do
  c₁ ← unlink_existing key c
  l ← add_to_front c.head e c₁.links
  let items = insert key e c₁.items
  let c₂ = record c₁ { links = l; items = items }
  if ltb_ℤ c.capacity (pos (length items)) then evict c₂ else some c₂

unfoldable pub remove : Text → LruCache → Option LruCache
unfolding remove_from_list
remove key c = elim (lookup key c.items) [
  | none ↦ some c
  | some e ↦ do
    l ← remove_from_list e c.links
    some (record c { links = l; items = delete key c.items })
]

unfoldable pub len : LruCache → ℕ
len c = length c.items
