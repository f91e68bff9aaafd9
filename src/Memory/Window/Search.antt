-- ===== src/Memory/Window/Search.antt =====
-- The binary search for the first request after a cutoff, against a filter.
use open_source.Common.{
  ℕ, zero, suc, ◌+◌, ◌-◌, ◌/◌, ◌≤◌, ◌<◌, ◌≡◌, refl, ap, true, false, List, [], ◌∷◌, arith, ltb, leb,
  if◌then◌else◌, length, get_or, drop, Bool-cases, inl, inr, length-drop,
}
use open_source.Common.GoTime.{Time}
use open_source.Memory.Window.{search_loop, all_recent, find_first_valid}

-- The requests after a cutoff.
unfoldable pub live : Time → List Time → List Time
live cutoff [] = []
live cutoff (t ∷ ts) = if ltb cutoff t then t ∷ live cutoff ts else live cutoff ts

-- No request is before the one in front of it, and none before `lo`.
abbrev pub Ascending : Time → List Time → Type 0
Ascending lo [] = Unit {0}
Ascending lo (t ∷ ts) = (lo ≤ t) × Ascending t ts

get_or_mono :
    (lo : Time) (ts : List Time) (i : ℕ) → Ascending lo ts → i < length ts → lo ≤ get_or ts i 0
get_or_mono lo [] i h b = absurd (omega arith)
get_or_mono lo (t ∷ ts) zero h b = h.0
get_or_mono lo (t ∷ ts) (suc i) h b = omega (arith, get_or_mono t ts i h.1 (omega arith))

pub get_or-Ascending :
    (lo : Time) (ts : List Time) (i j : ℕ)
    → Ascending lo ts
    → i ≤ j
    → j < length ts
    → get_or ts i 0 ≤ get_or ts j 0
get_or-Ascending lo [] i j h le b = absurd (omega arith)
get_or-Ascending lo (t ∷ ts) zero zero h le b = omega arith
get_or-Ascending lo (t ∷ ts) zero (suc j) h le b = get_or_mono t ts j h.1 (omega arith)
get_or-Ascending lo (t ∷ ts) (suc i) zero h le b = absurd (omega arith)
get_or-Ascending lo (t ∷ ts) (suc i) (suc j) h le b =
    get_or-Ascending t ts i j h.1 (omega arith) (omega arith)

-- Everything before index `n` is at most the cutoff, and everything from there on after it.
pub record Splits (cutoff : Time) (ts : List Time) (n : ℕ) : Type 0 where
  pub inside : n ≤ length ts
  pub below : (i : ℕ) → i < n → get_or ts i 0 ≤ cutoff
  pub above : (i : ℕ) → n ≤ i → i < length ts → cutoff < get_or ts i 0

search_loop-Splits :
    (fuel : ℕ) (lo cutoff : Time) (ts : List Time) (left right : ℕ)
    → Ascending lo ts
    → left ≤ right
    → right ≤ length ts
    → right - left < fuel
    → ((i : ℕ) → i < left → get_or ts i 0 ≤ cutoff)
    → ((i : ℕ) → right ≤ i → i < length ts → cutoff < get_or ts i 0)
    → Splits cutoff ts (search_loop fuel cutoff ts left right)
unfolding search_loop
search_loop-Splits zero lo cutoff ts left right asc le inside fuel low high = absurd (omega arith)
search_loop-Splits (suc fuel) lo cutoff ts left right asc le inside enough low high =
    elim (Bool-cases (ltb left right)) [
      | inr done ↦ rw done (record {
        inside = ground arith;
        below = low;
        above = λ i from to. high i (ground arith) to;
      })
      | inl more ↦
          let mid = (left + right) / 2 in
          let in_range : mid < right = ground arith in
          elim (Bool-cases (leb (get_or ts mid 0) cutoff)) [
            | inl old ↦
                rw (more, old)
                  (search_loop-Splits fuel lo cutoff ts (mid + 1) right asc (omega arith) inside
                    (ground arith)
                    (λ i b. omega (
                      arith,
                      get_or-Ascending lo ts i mid asc (omega arith) (omega arith),
                      old_le mid old,
                    ))
                    high)
            | inr new ↦
                rw (more, new)
                  (search_loop-Splits fuel lo cutoff ts left mid asc (ground arith) (omega arith)
                    (ground arith) low
                    (λ i b c. omega (arith, get_or-Ascending lo ts mid i asc b c, new_lt mid new)))
          ]
    ]
  where
    old_le : (m : ℕ) → leb (get_or ts m 0) cutoff ≡ true → get_or ts m 0 ≤ cutoff
    old_le m e = ground arith

    new_lt : (m : ℕ) → leb (get_or ts m 0) cutoff ≡ false → cutoff < get_or ts m 0
    new_lt m e = ground arith

recent_all :
    (lo cutoff : Time) (ts : List Time)
    → Ascending lo ts
    → all_recent cutoff ts ≡ true
    → Splits cutoff ts 0
unfolding all_recent
recent_all lo cutoff ts asc h = record {
  inside = omega arith;
  below = λ i b. absurd (omega arith);
  above = λ i from to. let first = get_or-Ascending lo ts 0 i asc from to in ground arith;
}

find_first_valid-Splits :
    (lo cutoff : Time) (ts : List Time)
    → Ascending lo ts
    → Splits cutoff ts (find_first_valid cutoff ts)
unfolding find_first_valid
find_first_valid-Splits lo cutoff ts asc = elim (Bool-cases (all_recent cutoff ts)) [
  | inl recent ↦ rw (recent, find_first_valid) (recent_all lo cutoff ts asc recent)
  | inr old ↦
      rw (old, find_first_valid)
        (search_loop-Splits (length ts + 1) lo cutoff ts 0 (length ts) asc (omega arith)
          (omega arith) (omega arith) (λ i b. absurd (omega arith))
          (λ i from to. absurd (omega arith)))
]

pub Splits-tail :
    (cutoff t : Time) (ts : List Time) (n : ℕ) → Splits cutoff (t ∷ ts) (suc n) → Splits cutoff ts n
Splits-tail cutoff t ts n h = record {
  inside = omega arith;
  below = λ i b. h.below (suc i) (omega arith);
  above = λ i from to. h.above (suc i) (omega arith) (omega arith);
}

Splits-shift : (cutoff t : Time) (ts : List Time) → Splits cutoff (t ∷ ts) 0 → Splits cutoff ts 0
Splits-shift cutoff t ts h = record {
  inside = omega arith;
  below = λ i b. absurd (omega arith);
  above = λ i from to. h.above (suc i) (omega arith) (omega arith);
}

live_of_Splits :
    (cutoff : Time) (ts : List Time) (n : ℕ) → Splits cutoff ts n → drop n ts ≡ live cutoff ts
unfolding live
live_of_Splits cutoff [] zero h = refl
live_of_Splits cutoff [] (suc n) h = refl
live_of_Splits cutoff (t ∷ ts) zero h = ground (
  arith,
  h.above 0 (omega arith) (omega arith),
  live_of_Splits cutoff ts 0 (Splits-shift cutoff t ts h),
)
live_of_Splits cutoff (t ∷ ts) (suc n) h =
    ground
      (arith, h.below 0 (omega arith), live_of_Splits cutoff ts n (Splits-tail cutoff t ts n h))

pub length-live-le : (cutoff : Time) (ts : List Time) → length (live cutoff ts) ≤ length ts
unfolding live
length-live-le cutoff [] = omega arith
length-live-le cutoff (t ∷ ts) = ground (arith, length-live-le cutoff ts)

-- On requests in the order of time, the binary search ends and finds the cut exactly: what lies
-- behind the index that it returns are the requests after the cutoff, all of them, in order; and
-- the index is the number of the others.
pub find_first_valid-live :
    (lo cutoff : Time) (ts : List Time)
    → Ascending lo ts
    → (drop (find_first_valid cutoff ts) ts ≡ live cutoff ts)
      × (find_first_valid cutoff ts + length (live cutoff ts) ≡ length ts)
find_first_valid-live lo cutoff ts asc =
    let cut = find_first_valid-Splits lo cutoff ts asc in
    let e = live_of_Splits cutoff ts (find_first_valid cutoff ts) cut in
    (e, omega (arith, ap length e, length-drop (find_first_valid cutoff ts) ts, cut.inside))
