-- ===== src/Configuration/Accepted.antt =====
-- Which configurations Validate of middleware/base/config.go accepts, and what it leaves.
use open_source.Common.{
  ◌≡◌, ◌↔◌, ◌⊎◌, inl, inr, Bool, true, false, none, some, arith, ◌||◌, not, is_empty, Option-cases,
}
use open_source.Common.Int.{pos, ◌≤ℤ◌}
use open_source.Common.Float.{Float64}
use open_source.Configuration.Settings.{Config, is_memory}
use open_source.Configuration.Validate.{
  redis_addr_missing, first_refusal, memory_defaults, other_defaults, by_priority, SortSlice,
  validate,
}

module _ (fl : Float64) where
  open fl use {Float, of_int, at_least}

  -- What a configuration needs to be accepted.
  abbrev pub Acceptable : Config fl → Type 0
  Acceptable c =
      (at_least (of_int (pos 0)) c.requests_per_second ≡ false)
      × (pos 1 ≤ℤ c.burst_size)
      × (pos 1 ≤ℤ c.block_duration)
      × ((c.max_block_duration ≤ℤ pos 0) ⊎ (c.block_duration ≤ℤ c.max_block_duration))
      × ((is_memory c.backend_type ≡ true) ⊎ (is_empty c.redis_addr ≡ false))

  -- What an accepted configuration is made into.
  abbrev pub filled : Config fl → Config fl
  filled c = other_defaults fl (memory_defaults fl c)

  unfoldable pub has_backend : Config fl → Bool
  has_backend c = is_memory c.backend_type || not (is_empty c.redis_addr)

module _ (fl : Float64) (sort_slice : SortSlice fl) where
  accepts→Acceptable : (c : Config fl) → (validate fl sort_slice c).1 ≡ none → Acceptable fl c
  unfolding validate
  accepts→Acceptable c h = ground arith

  Acceptable→accepts : (c : Config fl) → Acceptable fl c → (validate fl sort_slice c).1 ≡ none
  unfolding validate
  Acceptable→accepts c h = ground arith

  -- `Validate` returns no error exactly for a configuration with a positive rate, a burst and a
  -- block of 1 or more, a maximal block that is off (0 or less) or not below the block, and an
  -- address of Redis where Redis is the backend.
  pub validate-accepts_iff :
      (c : Config fl) → ((validate fl sort_slice c).1 ≡ none) ↔ Acceptable fl c
  validate-accepts_iff c = (accepts→Acceptable c, Acceptable→accepts c)

  pub validate-passes :
      (c : Config fl)
      → first_refusal fl c ≡ none
      → has_backend fl c ≡ true
      → validate fl sort_slice c ≡ (by_priority fl sort_slice (filled fl c), none)
  unfolding validate has_backend memory_defaults
  validate-passes c passes b = ground (arith, passes)

  pub validate-no_backend :
      (c : Config fl)
      → first_refusal fl c ≡ none
      → has_backend fl c ≡ false
      → (validate fl sort_slice c).1 ≡ some redis_addr_missing
  unfolding validate has_backend memory_defaults
  validate-no_backend c passes b = ground (arith, passes)

  pub accepts→passes :
      (c : Config fl)
      → (validate fl sort_slice c).1 ≡ none
      → (first_refusal fl c ≡ none) × (has_backend fl c ≡ true)
  unfolding validate has_backend memory_defaults
  accepts→passes c h = elim (Option-cases (first_refusal fl c)) [
    | inl passes ↦ ground (arith, passes)
    | inr (why, e) ↦ absurd (ground (arith, e))
  ]
