-- ===== src/Memory/Cache/Chain.antt =====
-- The doubly linked list: what unlinking an entry and linking one in front do to the chain.
use open_source.Common.{
  ◌≡◌, Bool, true, false, List, [], ◌∷◌, ◌++◌, ◌||◌, some, arith, ◌==◌, ◌==◌, if◌then◌else◌,
  Bool-cases, inl, inr,
}
use open_source.Memory.Cache.{Ptr, Links, update, add_to_front, remove_from_list}

abbrev pub has : Ptr → List Ptr → Bool
has a [] = false
has a (p ∷ ps) = (a == p) || has a ps

abbrev pub Distinct : List Ptr → Type 0
Distinct [] = Unit {0}
Distinct (p ∷ ps) = (has p ps ≡ false) × Distinct ps

-- From `a` the next pointers lead through `ps` to `z`, and the prev pointers back.
abbrev pub Linked : Links → Ptr → List Ptr → Ptr → Type 0
Linked l a [] z = (l.next a ≡ z) × (l.prev z ≡ a)
Linked l a (p ∷ ps) z = (l.next a ≡ p) × (l.prev p ≡ a) × Linked l p ps z

-- The list without an entry.
unfoldable pub erase : Ptr → List Ptr → List Ptr
erase p [] = []
erase p (q ∷ ps) = if q == p then ps else q ∷ erase p ps

pub has-snoc : (x : Ptr) (ps : List Ptr) (z : Ptr) → has x (ps ++ z ∷ []) ≡ (has x ps || (x == z))
has-snoc x [] z = ground arith
has-snoc x (p ∷ ps) z = ground (arith, has-snoc x ps z)

Linked-frame :
    (l m : Links) (a : Ptr) (ps : List Ptr) (z : Ptr)
    → ((x : Ptr) → has x (a ∷ ps) ≡ true → m.next x ≡ l.next x)
    → ((x : Ptr) → has x (ps ++ z ∷ []) ≡ true → m.prev x ≡ l.prev x)
    → Linked l a ps z
    → Linked m a ps z
Linked-frame l m a [] z n p h = ground (arith, n a, p z)
Linked-frame l m a (q ∷ ps) z n p h =
    let rest =
      Linked-frame l m q ps z (λ x i. n x (ground arith)) (λ x i. p x (ground arith)) h.2 in
    ground (arith, n a, p q)

-- The neighbours of a linked entry are on the list or its ends.
pub prev-has :
    (l : Links) (a : Ptr) (ps : List Ptr) (z p : Ptr)
    → Linked l a ps z
    → has p ps ≡ true
    → has (l.prev p) (a ∷ ps) ≡ true
prev-has l a [] z p h i = ground arith
prev-has l a (q ∷ ps) z p h i = ground (arith, prev-has l q ps z p)

pub next-has :
    (l : Links) (a : Ptr) (ps : List Ptr) (z p : Ptr)
    → Linked l a ps z
    → has p ps ≡ true
    → has (l.next p) (ps ++ z ∷ []) ≡ true
next-has l a [] z p h i = ground arith
next-has l a (q ∷ []) z p h i = ground arith
next-has l a (q ∷ r ∷ ps) z p h i = ground (arith, next-has l q (r ∷ ps) z p)

abbrev pub unlinked : Links → Ptr → Links
unlinked l p = record {
  next = update l.next (l.prev p) (l.next p);
  prev = update l.prev (l.next p) (l.prev p);
}

unlink_first :
    (l : Links) (a q : Ptr) (ps : List Ptr) (z : Ptr)
    → Distinct (a ∷ q ∷ ps ++ z ∷ [])
    → l.next a ≡ q
    → l.prev q ≡ a
    → Linked l q ps z
    → Linked (unlinked l q) a ps z
unlink_first l a q [] z d n p h = ground arith
unlink_first l a q (r ∷ ps) z d n p h =
    let rest =
      Linked-frame l (unlinked l q) r ps z (λ x i. ground (arith, has-snoc a ps z))
        (λ x i. ground arith) h.2 in
    ground arith

-- Unlinking an entry leaves a chain of the others, in their order.
pub unlinked-Linked :
    (l : Links) (a : Ptr) (ps : List Ptr) (z p : Ptr)
    → Distinct (a ∷ ps ++ z ∷ [])
    → has p ps ≡ true
    → Linked l a ps z
    → Linked (unlinked l p) a (erase p ps) z
unfolding erase
unlinked-Linked l a [] z p d i h = ground arith
unlinked-Linked l a (q ∷ ps) z p d i h = elim (Bool-cases (q == p)) [
  | inl hit ↦
      let e : q ≡ p = ground arith in rw hit (rw (← e) (unlink_first l a q ps z d h.0 h.1 h.2))
  | inr miss ↦
      let inner : has p ps ≡ true = ground arith in
      let rest = unlinked-Linked l q ps z p d.1 inner h.2 in
      let before = prev-has l q ps z p h.2 inner in
      let after = next-has l q ps z p h.2 inner in
      rw miss (ground (arith, has-snoc a ps z), ground (arith), rest)
]

-- The links after an entry has been put in front.
abbrev pub pushed : Links → Ptr → Ptr → Links
pushed l a e = record {
  next = update (update l.next e (l.next a)) a e;
  prev = update (update l.prev e a) (l.next a) e;
}

pub pushed-Linked :
    (l : Links) (a : Ptr) (ps : List Ptr) (z e : Ptr)
    → Distinct (a ∷ ps ++ z ∷ [])
    → has e (a ∷ ps ++ z ∷ []) ≡ false
    → Linked l a ps z
    → Linked (pushed l a e) a (e ∷ ps) z
pushed-Linked l a [] z e d f h = ground arith
pushed-Linked l a (r ∷ ps) z e d f h =
    let rest =
      Linked-frame l (pushed l a e) r ps z (λ x i. ground (arith, has-snoc a ps z, has-snoc e ps z))
        (λ x i. ground arith) h.2 in
    ground arith

pub ne_of_has : (x y : Ptr) (ps : List Ptr) → has x ps ≡ true → has y ps ≡ false → (x == y) ≡ false
ne_of_has x y [] h k = ground arith
ne_of_has x y (p ∷ ps) h k = ground (arith, ne_of_has x y ps)

has_inner : (x : Ptr) (ps : List Ptr) (z : Ptr) → has x ps ≡ true → has x (ps ++ z ∷ []) ≡ true
has_inner x ps z h = ground (arith, has-snoc x ps z)

prev-ne :
    (l : Links) (a : Ptr) (ps : List Ptr) (z p : Ptr)
    → Distinct (a ∷ ps ++ z ∷ [])
    → has p ps ≡ true
    → Linked l a ps z
    → (p == l.prev p) ≡ false
prev-ne l a [] z p d i h = ground arith
prev-ne l a (q ∷ ps) z p d i h = ground (arith, prev-ne l q ps z p)

-- On a chain of distinct entries that are no nil pointers, removeFromList panics at no nil pointer,
-- and does what `unlinked` says.
pub remove_from_list-unlinked :
    (l : Links) (a : Ptr) (ps : List Ptr) (z p : Ptr)
    → Distinct (a ∷ ps ++ z ∷ [])
    → has 0 (a ∷ ps ++ z ∷ []) ≡ false
    → has p ps ≡ true
    → Linked l a ps z
    → remove_from_list p l ≡ some (unlinked l p)
unfolding remove_from_list
remove_from_list-unlinked l a ps z p d nil i h =
    let before = has_inner (l.prev p) (a ∷ ps) z (prev-has l a ps z p h i) in
    let prev_nil = ne_of_has (l.prev p) 0 (a ∷ ps ++ z ∷ []) before nil in
    let inside : has 0 (ps ++ z ∷ []) ≡ false = ground arith in
    let next_nil = ne_of_has (l.next p) 0 (ps ++ z ∷ []) (next-has l a ps z p h i) inside in
    rw prev_nil (rw (prev-ne l a ps z p d i h) (rw next_nil))

pub add_to_front-pushed :
    (l : Links) (a : Ptr) (ps : List Ptr) (z e : Ptr)
    → has 0 (a ∷ ps ++ z ∷ []) ≡ false
    → (e == 0) ≡ false
    → has e (a ∷ ps ++ z ∷ []) ≡ false
    → Linked l a ps z
    → add_to_front a e l ≡ some (pushed l a e)
unfolding add_to_front
add_to_front-pushed l a [] z e nil n f h =
    let a_nil : (a == 0) ≡ false = ground arith in
    let a_e : (a == e) ≡ false = ground arith in
    let z_nil : (l.next a == 0) ≡ false = ground arith in rw n (rw a_e (rw (z_nil, a_nil)))
add_to_front-pushed l a (r ∷ ps) z e nil n f h =
    let a_nil : (a == 0) ≡ false = ground arith in
    let a_e : (a == e) ≡ false = ground arith in
    let r_nil : (l.next a == 0) ≡ false = ground arith in rw n (rw a_e (rw (r_nil, a_nil)))
