-- ===== src/Memory/Backend/Violations.antt =====
-- The violation counts of middleware/storage/memory/store.go.
use open_source.Common.{
  ℕ, ◌≤◌, ◌≡◌, refl, ◌∙◌, inl, inr, List, none, some, arith, Option-cases, Text,
}
use open_source.Common.Int.{ℤ, pos, ◌≤ℤ◌, add_int32}
use open_source.Common.GoTime.{Time}
use open_source.Common.Float.{Float64}
use open_source.Memory.Cache.{Ptr}
use open_source.Memory.Entry.{IpEntry}
use open_source.Memory.Backend.{Backend, get_violation_count, increment_violation, decay_entry}
use open_source.Memory.Backend.State.{Valid, entry_at}
use open_source.Memory.Backend.Made.{made_default}
use open_source.Memory.Backend.Updates.{entry_or, increment_violation-Updated}
use open_source.Memory.Backend.Blocks.{read-Valid}

module _ (fl : Float64) where
  abbrev count_at : Text → Backend fl → ℤ
  count_at k b = elim (entry_at fl k b) [ none ↦ pos 0 | some e ↦ e.violation_count ]

  entry_or-count_at :
      (k : Text) (made : Time) (b b' : Backend fl)
      → entry_at fl k b' ≡ entry_at fl k b
      → (entry_or fl (made_default fl made b') k b').violation_count ≡ count_at k b
  entry_or-count_at k made b b' same = elim (Option-cases (entry_at fl k b)) [
    | inl miss ↦ rw (same, entry_or) (rw (miss, count_at))
    | inr (e, hit) ↦ rw (same, entry_or) (rw (hit, count_at))
  ]

  -- On a valid backend with room for one entry, `GetViolationCount`, `IncrementViolation` and
  -- `GetViolationCount` of one key in turn do not panic. The increment answers the first count
  -- plus 1, as an int32, and so does the second reading.
  increment_violation-get_violation_count :
      (size : ℕ) (k : Text) (made now : Time) (b : Backend fl) (es : List (Text × Ptr))
      → 1 ≤ size
      → Valid fl size b es
      → (n : ℤ) × (b₁ b₂ b₃ : Backend fl) × (get_violation_count fl k b ≡ some (b₁, n))
        × (increment_violation fl k made now b₁ ≡ some (b₂, add_int32 n (pos 1)))
        × (get_violation_count fl k b₂ ≡ some (b₃, add_int32 n (pos 1)))
  unfolding get_violation_count
  increment_violation-get_violation_count size k made now b es room v =
      let (b₁, reads, v₁, same) = read-Valid fl size k (pos 0) (λ e. e.violation_count) b es v in
      let (b₂, counts, u) = increment_violation-Updated fl size k made now b₁ _ room v₁ in
      let (b₃, rereads, v₃, same₃) =
        read-Valid fl size k (pos 0) (λ e. e.violation_count) b₂ u.order u.valid in
      (
        count_at k b,
        b₁,
        b₂,
        b₃,
        reads,
        rw (← entry_or-count_at k made b b₁ (same k)) counts,
        rereads ∙ rw (u.here) (rw (← entry_or-count_at k made b b₁ (same k)) refl),
      )

  -- A decay leaves a violation count that is 0 or more at a value from 0 to that count.
  decay_entry-between :
      (now decay_secs n : ℕ) (e : IpEntry fl)
      → n ≤ 2147483647
      → e.violation_count ≡ pos n
      → let e' = decay_entry fl now decay_secs e in
        (pos 0 ≤ℤ e'.violation_count) × (e'.violation_count ≤ℤ pos n)
  unfolding decay_entry
  decay_entry-between now decay_secs n e h c = ground arith
