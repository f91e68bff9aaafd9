-- ===== src/Pipeline/Traffic.antt =====
-- What distributedAttackDetector of middleware/base/limiter.go counts.
use open_source.Common.{ℕ, ◌+◌, ◌≤◌, ◌≡◌, refl, ap, ◌∙◌, List, [], ◌∷◌, arith, leb, if◌then◌else◌}
use open_source.Common.Int.{pos, neg}
use open_source.Common.GoTime.{Time, Duration, add, unix}
use mathlib.Core.Path.{subst}
use open_source.Common.Float.{Float64}
use open_source.Pipeline.Detector.{
  bump, drop_before, total_from, DistributedAttackDetector, new_distributed_attack_detector,
  record_request,
}

-- How many of the instants fall in the second `c` or later.
unfoldable pub count_since : ℕ → List Time → ℕ
count_since c [] = 0
count_since c (t ∷ ts) = (if leb c (unix t) then 1 else 0) + count_since c ts

-- The second in which the window that ends at an instant begins.
abbrev pub cutoff_of : Duration → Time → ℕ
cutoff_of window now = unix (add now (neg window))

total-bump :
    (c b : ℕ) (m : List (ℕ × ℕ))
    → total_from c (bump b m) ≡ (if leb c b then 1 else 0) + total_from c m
unfolding total_from bump
total-bump c b [] = ground arith
total-bump c b ((ts, n) ∷ m) = ground (arith, total-bump c b m)

total-drop_before :
    (c d : ℕ) (m : List (ℕ × ℕ)) → d ≤ c → total_from c (drop_before d m) ≡ total_from c m
unfolding total_from drop_before
total-drop_before c d [] h = refl
total-drop_before c d ((ts, n) ∷ m) h = ground (arith, total-drop_before c d m)

unix_mono : (a b : Time) → a ≤ b → unix a ≤ unix b
unix_mono a b h = omega arith

cutoff_mono : (window : Duration) (t u : Time) → t ≤ u → cutoff_of window t ≤ cutoff_of window u
cutoff_mono window t u h =
    let moved : add t (neg window) ≤ add u (neg window) = omega arith in
    unix_mono (add t (neg window)) (add u (neg window)) moved

module _ (fl : Float64) where
  -- The map holds the counts of the instants `past`, from the second `since` on.
  abbrev Tracks : ℕ → List Time → DistributedAttackDetector fl → Type 0
  Tracks since past d = (c : ℕ) → since ≤ c → total_from c d.requests ≡ count_since c past

  -- Calls of `Record` at the instants of a list, the last one first: the detector after them.
  unfoldable pub record_all :
      List Time → DistributedAttackDetector fl → DistributedAttackDetector fl
  record_all [] d = d
  record_all (t ∷ ts) d = (record_request fl t (record_all ts d)).0

  -- No instant is before the next one of the list.
  abbrev pub Descending : List Time → Type 0
  Descending [] = Unit {0}
  Descending (t ∷ []) = Unit {0}
  Descending (t ∷ u ∷ ts) = (u ≤ t) × Descending (u ∷ ts)

  abbrev last_cutoff : Duration → List Time → ℕ
  last_cutoff window [] = 0
  last_cutoff window (t ∷ ts) = cutoff_of window t

  record_request-Tracks :
      (since : ℕ) (past : List Time) (now : Time) (d : DistributedAttackDetector fl)
      → since ≤ cutoff_of d.window now
      → Tracks since past d
      → Tracks (cutoff_of d.window now) (now ∷ past) (record_request fl now d).0
  unfolding record_request count_since
  record_request-Tracks since past now d le h c le' =
      let cut = cutoff_of d.window now in
      total-drop_before c cut (bump (unix now) d.requests) le'
      ∙ total-bump c (unix now) d.requests
      ∙ ap (λ n. (if leb c (unix now) then 1 else 0) + n) (h c (omega arith))

  record_all-window :
      (ts : List Time) (d : DistributedAttackDetector fl) → (record_all ts d).window ≡ d.window
  unfolding record_all record_request
  record_all-window [] d = refl
  record_all-window (t ∷ ts) d = record_all-window ts d

  record_all-threshold :
      (ts : List Time) (d : DistributedAttackDetector fl)
      → (record_all ts d).threshold ≡ d.threshold
  unfolding record_all record_request
  record_all-threshold [] d = refl
  record_all-threshold (t ∷ ts) d = record_all-threshold ts d

  record_all-step :
      (t : Time) (ts : List Time) (since : ℕ) (window : Duration) (threshold : fl.Float)
      → since ≤ cutoff_of window t
      → Tracks since ts (record_all ts (new_distributed_attack_detector fl window threshold))
      → Tracks
          (cutoff_of window t)
          (t ∷ ts)
          (record_all (t ∷ ts) (new_distributed_attack_detector fl window threshold))
  unfolding record_all new_distributed_attack_detector
  record_all-step t ts since window threshold le h =
      let d = record_all ts (new_distributed_attack_detector fl window threshold) in
      let same = record_all-window ts (new_distributed_attack_detector fl window threshold) in
      subst (λ w. Tracks (cutoff_of w t) (t ∷ ts) (record_request fl t d).0) same
        (record_request-Tracks since ts t d (rw same le) h)

  record_all-Tracks :
      (ts : List Time) (window : Duration) (threshold : fl.Float)
      → Descending ts
      → Tracks
          (last_cutoff window ts)
          ts
          (record_all ts (new_distributed_attack_detector fl window threshold))
  unfolding record_all new_distributed_attack_detector total_from count_since
  record_all-Tracks [] window threshold h = λ c le. refl
  record_all-Tracks (t ∷ []) window threshold h =
      record_all-step t [] 0 window threshold (omega arith)
        (record_all-Tracks [] window threshold tt)
  record_all-Tracks (t ∷ u ∷ ts) window threshold h =
      record_all-step t (u ∷ ts) (cutoff_of window u) window threshold (cutoff_mono window u t h.0)
        (record_all-Tracks (u ∷ ts) window threshold h.1)

  record_request-verdict :
      (now : Time) (d : DistributedAttackDetector fl)
      → (record_request fl now d).1
        ≡ fl.greater
            (fl.of_int
              (pos (total_from (cutoff_of d.window now) (record_request fl now d).0.requests)))
            d.threshold
  unfolding record_request
  record_request-verdict now d = refl

  -- Where the clock does not go back, `Record` reports an attack exactly if the number of its calls, of
  -- this one and of all before it since the detector was made, that fall in the window is above the
  -- threshold. The window is taken in whole seconds: it begins with the second that the instant of the
  -- call less the window falls in.
  pub record_request-count_since :
      (now : Time) (past : List Time) (window : Duration) (threshold : fl.Float)
      → Descending (now ∷ past)
      → (record_request fl now
          (record_all past (new_distributed_attack_detector fl window threshold))).1
        ≡ fl.greater (fl.of_int (pos (count_since (cutoff_of window now) (now ∷ past)))) threshold
  unfolding record_all new_distributed_attack_detector
  record_request-count_since now past window threshold h =
      let made = new_distributed_attack_detector fl window threshold in
      let d = record_all past made in
      record_request-verdict now d
      ∙ ap
          (λ w.
            fl.greater
              (fl.of_int
                (pos (total_from (cutoff_of w now) (record_all (now ∷ past) made).requests)))
              d.threshold)
          (record_all-window past made)
      ∙ ap (λ n. fl.greater (fl.of_int (pos n)) d.threshold)
          (record_all-Tracks (now ∷ past) window threshold h (cutoff_of window now) (omega arith))
      ∙ ap (λ x. fl.greater (fl.of_int (pos (count_since (cutoff_of window now) (now ∷ past)))) x)
          (record_all-threshold past made)
