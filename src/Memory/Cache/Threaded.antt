-- ===== src/Memory/Cache/Threaded.antt =====
-- The doubly linked list as a whole: a chain of distinct entries, none of them a nil pointer.
use open_source.Common.{
  ◌≡◌, refl, true, false, List, [], ◌∷◌, ◌++◌, some, arith, ◌==◌, Bool-cases, inl, inr,
}
use open_source.Memory.Cache.{Ptr, Links, add_to_front, remove_from_list, move_to_front}
use open_source.Memory.Cache.Chain.{
  has, Distinct, Linked, erase, has-snoc, unlinked, unlinked-Linked, pushed, pushed-Linked,
  remove_from_list-unlinked, add_to_front-pushed, ne_of_has,
}

pub record Threaded (l : Links) (a : Ptr) (ps : List Ptr) (z : Ptr) : Type 0 where
  pub chain : Linked l a ps z
  pub apart : Distinct (a ∷ ps ++ z ∷ [])
  pub no_nil : has 0 (a ∷ ps ++ z ∷ []) ≡ false

has-erase : (x p : Ptr) (ps : List Ptr) → has x ps ≡ false → has x (erase p ps) ≡ false
unfolding erase
has-erase x p [] h = refl
has-erase x p (q ∷ ps) h = ground (arith, has-erase x p ps)

has-erase_snoc :
    (x p z : Ptr) (ps : List Ptr)
    → has x (ps ++ z ∷ []) ≡ false
    → has x (erase p ps ++ z ∷ []) ≡ false
has-erase_snoc x p z ps h =
    ground (arith, has-snoc x ps z, has-snoc x (erase p ps) z, has-erase x p ps)

Distinct-erase :
    (p z : Ptr) (ps : List Ptr) → Distinct (ps ++ z ∷ []) → Distinct (erase p ps ++ z ∷ [])
unfolding erase
Distinct-erase p z [] d = d
Distinct-erase p z (q ∷ ps) d = elim (Bool-cases (q == p)) [
  | inl hit ↦ rw hit d.1
  | inr miss ↦ rw miss (has-erase_snoc q p z ps d.0, Distinct-erase p z ps d.1)
]

-- An erased entry is gone, where it stood once.
erased :
    (p z : Ptr) (ps : List Ptr)
    → Distinct (ps ++ z ∷ [])
    → has p ps ≡ true
    → has p (erase p ps ++ z ∷ []) ≡ false
unfolding erase
erased p z [] d i = ground arith
erased p z (q ∷ ps) d i = elim (Bool-cases (q == p)) [
  | inl hit ↦ rw hit (ground arith)
  | inr miss ↦ let rest = erased p z ps d.1 (ground arith) in rw miss (ground arith)
]

end_apart :
    (a p z : Ptr) (ps : List Ptr) → Distinct (a ∷ ps ++ z ∷ []) → has p ps ≡ true → (p == a) ≡ false
end_apart a p z ps d i = ground (arith, has-snoc a ps z)

-- removeFromList of an entry of the list: it panics nowhere, the others stay linked in their
-- order, and the entry is no longer on the list.
pub remove_from_list-Threaded :
    (l : Links) (a : Ptr) (ps : List Ptr) (z p : Ptr)
    → has p ps ≡ true
    → Threaded l a ps z
    → (remove_from_list p l ≡ some (unlinked l p))
      × Threaded (unlinked l p) a (erase p ps) z
      × (has p (a ∷ erase p ps ++ z ∷ []) ≡ false)
remove_from_list-Threaded l a ps z p i t = (
  remove_from_list-unlinked l a ps z p t.apart t.no_nil i t.chain,
  record {
    chain = unlinked-Linked l a ps z p t.apart i t.chain;
    apart = (has-erase_snoc a p z ps t.apart.0, Distinct-erase p z ps t.apart.1);
    no_nil = let rest = has-erase_snoc 0 p z ps (ground arith) in ground arith;
  },
  let gone = erased p z ps t.apart.1 i in let other = end_apart a p z ps t.apart i in ground arith,
)

-- addToFront of a new entry: it panics nowhere, and the entry is the first of the list.
pub add_to_front-Threaded :
    (l : Links) (a : Ptr) (ps : List Ptr) (z e : Ptr)
    → (e == 0) ≡ false
    → has e (a ∷ ps ++ z ∷ []) ≡ false
    → Threaded l a ps z
    → (add_to_front a e l ≡ some (pushed l a e)) × Threaded (pushed l a e) a (e ∷ ps) z
add_to_front-Threaded l a ps z e n f t = (
  add_to_front-pushed l a ps z e t.no_nil n f t.chain,
  record {
    chain = pushed-Linked l a ps z e t.apart f t.chain;
    apart = ground arith;
    no_nil = ground arith;
  },
)

entry_not_nil :
    (a : Ptr) (ps : List Ptr) (z p : Ptr)
    → has p ps ≡ true
    → has 0 (a ∷ ps ++ z ∷ []) ≡ false
    → (p == 0) ≡ false
entry_not_nil a ps z p i nil = ne_of_has p 0 ps i (ground (arith, has-snoc 0 ps z))

-- moveToFront of an entry of the list puts it first and keeps the order of the others.
pub move_to_front-Threaded :
    (l : Links) (a : Ptr) (ps : List Ptr) (z p : Ptr)
    → has p ps ≡ true
    → Threaded l a ps z
    → (move_to_front a p l ≡ some (pushed (unlinked l p) a p))
      × Threaded (pushed (unlinked l p) a p) a (p ∷ erase p ps) z
unfolding move_to_front
move_to_front-Threaded l a ps z p i t =
    let (removed, t', gone) = remove_from_list-Threaded l a ps z p i t in
    let (added, t'') =
      add_to_front-Threaded (unlinked l p) a (erase p ps) z p (entry_not_nil a ps z p i t.no_nil)
        gone t' in
    (rw (removed, added), t'')
