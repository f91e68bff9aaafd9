-- ===== src/Pipeline/Detector.antt =====
-- distributedAttackDetector of middleware/base/limiter.go: counts of requests by their second.
use open_source.Common.{ℕ, ◌+◌, Bool, List, [], ◌∷◌, ltb, leb, ◌==◌, if◌then◌else◌}
use open_source.Common.Int.{pos, neg}
use open_source.Common.GoTime.{Time, Duration, add, unix}
use open_source.Common.Float.{Float64}

-- `d.requests[bucket]++`
unfoldable pub bump : ℕ → List (ℕ × ℕ) → List (ℕ × ℕ)
bump bucket [] = (bucket, 1) ∷ []
bump bucket ((ts, n) ∷ requests) =
    if ts == bucket then (ts, n + 1) ∷ requests else (ts, n) ∷ bump bucket requests

-- The loop that deletes what is before the cutoff.
unfoldable pub drop_before : ℕ → List (ℕ × ℕ) → List (ℕ × ℕ)
drop_before cutoff [] = []
drop_before cutoff ((ts, n) ∷ requests) =
    let rest = drop_before cutoff requests in if ltb ts cutoff then rest else (ts, n) ∷ rest

-- The loop that adds up what is not before the cutoff.
unfoldable pub total_from : ℕ → List (ℕ × ℕ) → ℕ
total_from cutoff [] = 0
total_from cutoff ((ts, n) ∷ requests) =
    let rest = total_from cutoff requests in if leb cutoff ts then n + rest else rest

module _ (fl : Float64) where
  open fl use {Float, of_int, greater}

  pub record DistributedAttackDetector : Type 0 where
    pub requests : List (ℕ × ℕ)
    pub window : Duration
    pub threshold : Float

  unfoldable pub new_distributed_attack_detector : Duration → Float → DistributedAttackDetector
  new_distributed_attack_detector window threshold = record {
    requests = [];
    window = window;
    threshold = threshold;
  }

  unfoldable pub record_request :
      Time → DistributedAttackDetector → DistributedAttackDetector × Bool
  unfolding bump drop_before total_from
  record_request now d =
      let cutoff = unix (add now (neg d.window)) in
      let kept = drop_before cutoff (bump (unix now) d.requests) in
      (record d { requests = kept }, greater (of_int (pos (total_from cutoff kept))) d.threshold)
