-- ===== src/Memory/Window/Log.antt =====
-- The sliding window against a log that forgets nothing.
use open_source.Common.{
  ℕ, zero, suc, ◌≤◌, ◌<◌, ◌≡◌, refl, ap, ◌∙◌, Bool, true, false, List, [], ◌∷◌, ◌++◌, arith, ltb,
  if◌then◌else◌, length, drop, Bool-cases, inl, inr,
}
use open_source.Common.Int.{ℤ, pos, neg, leb_ℤ, negsuc, ◌<ℤ◌}
use open_source.Common.GoTime.{Time, Duration, add}
use open_source.Memory.Window.{SlidingWindow, find_first_valid, allow}
use open_source.Memory.Window.Search.{live, Ascending, find_first_valid-live}

-- The whole rule: a request is admitted if fewer than the limit were in the window before it.
unfoldable pub log_allow : Duration → ℤ → Time → List Time → List Time × Bool
log_allow size limit now log =
    if leb_ℤ limit (pos (length (live (add now (neg size)) log)))
    then (log, false)
    else (log ++ now ∷ [], true)

-- All of the list is at most `hi`.
abbrev pub UpTo : Time → List Time → Type 0
UpTo hi [] = Unit {0}
UpTo hi (t ∷ ts) = (t ≤ hi) × UpTo hi ts

live-live : (c d : Time) (ts : List Time) → c ≤ d → live d (live c ts) ≡ live d ts
unfolding live
live-live c d [] h = refl
live-live c d (t ∷ ts) h = ground (arith, live-live c d ts h)

pub live-append : (c : Time) (ts us : List Time) → live c (ts ++ us) ≡ live c ts ++ live c us
unfolding live
live-append c [] us = refl
live-append c (t ∷ ts) us = ground (arith, live-append c ts us)

pub live_mono : (c d : Time) (ts : List Time) → c ≤ d → length (live d ts) ≤ length (live c ts)
unfolding live
live_mono c d [] h = omega arith
live_mono c d (t ∷ ts) h = ground (arith, live_mono c d ts h)

Ascending-weaken : (lo lo' : Time) (ts : List Time) → lo ≤ lo' → Ascending lo' ts → Ascending lo ts
Ascending-weaken lo lo' [] h a = tt
Ascending-weaken lo lo' (t ∷ ts) h a = (omega arith, a.1)

Ascending-live : (lo c : Time) (ts : List Time) → Ascending lo ts → Ascending lo (live c ts)
unfolding live
Ascending-live lo c [] a = tt
Ascending-live lo c (t ∷ ts) a = elim (Bool-cases (ltb c t)) [
  | inl new ↦ rw new (a.0, Ascending-live t c ts a.1)
  | inr old ↦ rw old (Ascending-weaken lo t (live c ts) a.0 (Ascending-live t c ts a.1))
]

Ascending-snoc :
    (lo now : Time) (ts : List Time)
    → lo ≤ now
    → Ascending lo ts
    → UpTo now ts
    → Ascending lo (ts ++ now ∷ [])
Ascending-snoc lo now [] h a u = (h, tt)
Ascending-snoc lo now (t ∷ ts) h a u = (a.0, Ascending-snoc t now ts u.0 a.1 u.1)

UpTo-weaken : (hi hi' : Time) (ts : List Time) → hi ≤ hi' → UpTo hi ts → UpTo hi' ts
UpTo-weaken hi hi' [] h u = tt
UpTo-weaken hi hi' (t ∷ ts) h u = (omega arith, UpTo-weaken hi hi' ts h u.1)

UpTo-snoc : (now : Time) (ts : List Time) → UpTo now ts → UpTo now (ts ++ now ∷ [])
UpTo-snoc now [] u = (omega arith, tt)
UpTo-snoc now (t ∷ ts) u = (u.0, UpTo-snoc now ts u.1)

-- The window holds what is left of the log behind a cutoff that no later call goes below.
pub record Keeps (last : Time) (log : List Time) (sw : SlidingWindow) : Type 0 where
  pub cutoff : Time
  pub passed : cutoff ≤ add last (neg sw.window_size)
  pub holds : sw.requests ≡ live cutoff log
  pub ascending : Ascending 0 log
  pub up_to : UpTo last log

drop_if : (n : ℕ) (ts : List Time) → (if ltb 0 n then drop n ts else ts) ≡ drop n ts
drop_if zero ts = refl
drop_if (suc n) ts = ground arith

-- `allow` with the search gone, given the requests that it keeps.
unfoldable pub allow_by : List Time → Time → SlidingWindow → SlidingWindow × Bool
allow_by kept now sw =
    if leb_ℤ sw.limit (pos (length kept))
    then (record sw { requests = kept }, false)
    else (record sw { requests = kept ++ now ∷ [] }, true)

pub allow-live :
    (now : Time) (sw : SlidingWindow)
    → Ascending 0 sw.requests
    → allow now sw ≡ allow_by (live (add now (neg sw.window_size)) sw.requests) now sw
unfolding allow allow_by
allow-live now sw asc =
    let cutoff = add now (neg sw.window_size) in
    let (cut, size) = find_first_valid-live 0 cutoff sw.requests asc in
    rw (drop_if (find_first_valid cutoff sw.requests) sw.requests) (rw cut)

pub add_mono : (a b : Time) (d : Duration) → a ≤ b → add a d ≤ add b d
add_mono a b d h = omega arith

cutoff_past : (now : Time) (size : Duration) → pos 0 <ℤ size → 0 < now → add now (neg size) < now
cutoff_past now (pos n) h b = ground arith
cutoff_past now (negsuc n) h b = absurd (omega arith)

live_of_past : (c now : Time) → c < now → live c (now ∷ []) ≡ now ∷ []
unfolding live
live_of_past c now h = ground arith

-- One call, once what it keeps is known to be what the log keeps.
allow_by-Keeps :
    (now last : Time) (log : List Time) (sw : SlidingWindow)
    → pos 0 <ℤ sw.window_size
    → 0 < now
    → last ≤ now
    → Keeps last log sw
    → let kept = live (add now (neg sw.window_size)) log in
      ((allow_by kept now sw).1 ≡ (log_allow sw.window_size sw.limit now log).1)
      × Keeps now (log_allow sw.window_size sw.limit now log).0 (allow_by kept now sw).0
      × ((allow_by kept now sw).0.window_size ≡ sw.window_size)
      × ((allow_by kept now sw).0.limit ≡ sw.limit)
unfolding allow_by log_allow
allow_by-Keeps now last log sw w started le k =
    let c = add now (neg sw.window_size) in
    elim (Bool-cases (leb_ℤ sw.limit (pos (length (live c log))))) [
      | inl full ↦
          rw (full, allow_by, log_allow)
            (
              refl,
              record {
                cutoff = c;
                passed = omega arith;
                holds = refl;
                ascending = k.ascending;
                up_to = UpTo-weaken last now log le k.up_to;
              },
              refl,
              refl,
            )
      | inr free ↦
          rw (free, allow_by, log_allow)
            (
              refl,
              record {
                cutoff = c;
                passed = omega arith;
                holds =
                    rw (live-append c log (now ∷ []))
                      (rw (live_of_past c now (cutoff_past now sw.window_size w started)));
                ascending =
                    Ascending-snoc 0 now log (omega arith) k.ascending
                      (UpTo-weaken last now log le k.up_to);
                up_to = UpTo-snoc now log (UpTo-weaken last now log le k.up_to);
              },
              refl,
              refl,
            )
    ]

-- A call of the window answers as the log does, and the two stay in step.
pub allow-log_allow :
    (now last : Time) (log : List Time) (sw : SlidingWindow)
    → pos 0 <ℤ sw.window_size
    → 0 < now
    → last ≤ now
    → Keeps last log sw
    → ((allow now sw).1 ≡ (log_allow sw.window_size sw.limit now log).1)
      × Keeps now (log_allow sw.window_size sw.limit now log).0 (allow now sw).0
      × ((allow now sw).0.window_size ≡ sw.window_size)
      × ((allow now sw).0.limit ≡ sw.limit)
allow-log_allow now last log sw w started le k =
    let c = add now (neg sw.window_size) in
    let same : live c sw.requests ≡ live c log =
      ap (live c) k.holds
      ∙ live-live k.cutoff c log
          (omega (arith, k.passed, add_mono last now (neg sw.window_size) le)) in
    rw (allow-live now sw (rw k.holds (Ascending-live 0 k.cutoff log k.ascending)))
      (rw same (allow_by-Keeps now last log sw w started le k))
