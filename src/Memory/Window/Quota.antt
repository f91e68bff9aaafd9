-- ===== src/Memory/Window/Quota.antt =====
-- What a sliding window promises over any number of calls.
use open_source.Common.{
  ℕ, ◌≤◌, ◌<◌, ◌≡◌, refl, ap, sym, ◌∙◌, Bool, false, List, some, [], ◌∷◌, ◌++◌, arith, length,
  if◌then◌else◌, Bool-cases, inl, inr, length-append,
}
use mathlib.Core.List.{append-nil, append_assoc}
use open_source.Common.Int.{ℤ, pos, neg, leb_ℤ, ◌<ℤ◌}
use open_source.Common.GoTime.{Time, Duration, add}
use open_source.Memory.Window.{SlidingWindow, empty_window, new_sliding_window, allow}
use open_source.Memory.Window.Made.{new_sliding_window-made}
use open_source.Memory.Window.Search.{live, Ascending, length-live-le}
use open_source.Memory.Window.Log.{
  log_allow, Keeps, allow-log_allow, live-append, live_mono, add_mono,
}

-- `Allow` at the instants of a list: the last state, and the answers.
unfoldable pub run_allow : List Time → SlidingWindow → SlidingWindow × List Bool
run_allow [] sw = (sw, [])
run_allow (now ∷ later) sw =
    let (sw', answer) = allow now sw in
    let (last, answers) = run_allow later sw' in (last, answer ∷ answers)

-- The same calls answered from the whole log.
unfoldable pub run_log : Duration → ℤ → List Time → List Time → List Time × List Bool
run_log size limit [] log = (log, [])
run_log size limit (now ∷ later) log =
    let (log', answer) = log_allow size limit now log in
    let (last, answers) = run_log size limit later log' in (last, answer ∷ answers)

-- The instants whose answer was true.
unfoldable pub admitted : List Time → List Bool → List Time
admitted [] answers = []
admitted (t ∷ ts) [] = []
admitted (t ∷ ts) (a ∷ answers) = if a then t ∷ admitted ts answers else admitted ts answers

-- The last instant of a list, or `last` where there is none.
abbrev pub latest : Time → List Time → Time
latest last [] = last
latest last (t ∷ ts) = latest t ts

run_allow-Keeps :
    (ts : List Time) (last : Time) (log : List Time) (sw : SlidingWindow)
    → pos 0 <ℤ sw.window_size
    → 0 < last
    → Ascending last ts
    → Keeps last log sw
    → ((run_allow ts sw).1 ≡ (run_log sw.window_size sw.limit ts log).1)
unfolding run_allow run_log
run_allow-Keeps [] last log sw w started asc k = refl
run_allow-Keeps (now ∷ later) last log sw w started asc k =
    let (same, k', size, limit) = allow-log_allow now last log sw w (omega arith) asc.0 k in
    let log' = (log_allow sw.window_size sw.limit now log).0 in
    let rest = run_allow-Keeps later now log' (allow now sw).0 (rw size w) (omega arith) asc.1 k' in
    ground (arith, same, size, limit, rest)

empty-Keeps : (last : Time) (size : Duration) (limit : ℤ) → Keeps last [] (empty_window size limit)
unfolding live
empty-Keeps last size limit = record {
  cutoff = 0;
  passed = omega arith;
  holds = refl;
  ascending = tt;
  up_to = tt;
}

-- A new window, called at instants in the order of time, answers every call as the rule over the
-- whole past does: admit exactly if fewer than `limit` of the admitted requests lie in the window
-- of the given (positive) size that ends at the call.
pub run_allow-run_log :
    (size : Duration) (limit : ℤ) (start : Time) (ts : List Time)
    → pos 0 <ℤ size
    → 0 < start
    → Ascending start ts
    → (run_allow ts (empty_window size limit)).1 ≡ (run_log size limit ts []).1
run_allow-run_log size limit start ts w started asc =
    run_allow-Keeps ts start [] (empty_window size limit) w started asc
      (empty-Keeps start size limit)

run_log-admitted :
    (size : Duration) (limit : ℤ) (ts log : List Time)
    → (run_log size limit ts log).0 ≡ log ++ admitted ts (run_log size limit ts log).1
unfolding run_log log_allow admitted
run_log-admitted size limit [] log = sym (append-nil log)
run_log-admitted size limit (now ∷ later) log =
    elim (Bool-cases (leb_ℤ limit (pos (length (live (add now (neg size)) log))))) [
      | inl full ↦ rw full (run_log-admitted size limit later log)
      | inr free ↦
          rw free
            (run_log-admitted size limit later (log ++ now ∷ []) ∙ append_assoc log (now ∷ []) _)
    ]

-- At most `l` of the log lie in the window that ends at `now`.
abbrev Full : Duration → ℕ → Time → List Time → Type 0
Full size l now log = length (live (add now (neg size)) log) ≤ l

log_allow-Full :
    (size : Duration) (l : ℕ) (now last : Time) (log : List Time)
    → last ≤ now
    → Full size l last log
    → Full size l now (log_allow size (pos l) now log).0
unfolding log_allow
log_allow-Full size l now last log le h =
    let c = add now (neg size) in
    let kept = live_mono (add last (neg size)) c log (add_mono last now (neg size) le) in
    elim (Bool-cases (leb_ℤ (pos l) (pos (length (live c log))))) [
      | inl full ↦ rw full (omega (arith, h, kept))
      | inr free ↦ rw free (room (live c log) free (ap length (live-append c log (now ∷ []))))
    ]
  where
    room :
        (kept : List Time)
        → leb_ℤ (pos l) (pos (length kept)) ≡ false
        → {n : ℕ} → n ≡ length (kept ++ live (add now (neg size)) (now ∷ []))
        → n ≤ l
    room kept free e =
        let below : length kept < l = ground arith in
        omega (
          arith,
          length-append kept (live (add now (neg size)) (now ∷ [])),
          length-live-le (add now (neg size)) (now ∷ []),
        )

run_log-Full :
    (size : Duration) (l : ℕ) (ts : List Time) (last : Time) (log : List Time)
    → Ascending last ts
    → Full size l last log
    → Full size l (latest last ts) (run_log size (pos l) ts log).0
unfolding run_log
run_log-Full size l [] last log asc h = h
run_log-Full size l (now ∷ later) last log asc h =
    run_log-Full size l later now (log_allow size (pos l) now log).0 asc.1
      (log_allow-Full size l now last log asc.0 h)

-- The limit is kept in every window: of the requests that a new window, made with a positive size
-- and the limit `l`, has admitted, at instants in the order of time and after the zero time, at most `l`
-- lie in the window that ends at any instant from the last call on.
pub run_allow-quota :
    (size : Duration) (l : ℕ) (sw : SlidingWindow) (start now : Time) (ts : List Time)
    → new_sliding_window size (pos l) ≡ some sw
    → pos 0 <ℤ size
    → 0 < start
    → Ascending start ts
    → latest start ts ≤ now
    → length (live (add now (neg size)) (admitted ts (run_allow ts sw).1)) ≤ l
unfolding live
run_allow-quota size l sw start now ts made w started asc le =
    let log = run_log size (pos l) ts [] in
    rw (new_sliding_window-made size (pos l) sw made) (
      rw (run_allow-run_log size (pos l) start ts w started asc) (
        rw (← run_log-admitted size (pos l) ts []) (
          omega (
            arith,
            run_log-Full size l ts start [] asc (omega arith),
            live_mono _ _ log.0 (add_mono _ _ (neg size) le),
          ))))
