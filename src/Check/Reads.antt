-- ===== src/Check/Reads.antt =====
-- When the dry run of middleware/routing/check.go panics.
use open_source.Common.{ℕ, ◌≡◌, ◌↔◌, some, arith, Text}
use open_source.Common.Int.{pos}
use open_source.Common.Float.{Float64}
use open_source.Pipeline.Backends.{BackendOps}
use open_source.Pipeline.Limits.{Limits, window_limit}
use open_source.Check.{divided_by_zero, check_limit_dry_run}

module _ (fl : Float64) (ops : BackendOps fl) where
  -- Where the backend answers, the dry run panics exactly if the limit is 0, by a division by it.
  pub check_limit_dry_run-panics_iff :
      (key : Text) (l : Limits fl) (s : ops.State) (count : ℕ)
      → (ops.get_sliding_window_count key l.window_size s).1 ≡ some count
      → ((check_limit_dry_run fl ops key l s).1 ≡ divided_by_zero)
        ↔ (window_limit fl ops l.rps l.burst l.window_size ≡ pos 0)
  unfolding check_limit_dry_run
  check_limit_dry_run-panics_iff key l s count said = (ground (arith, said), ground (arith, said))
