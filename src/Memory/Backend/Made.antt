-- ===== src/Memory/Backend/Made.antt =====
-- The new entries of middleware/storage/memory/store.go, where their windows can be made.
use open_source.Common.{◌≡◌, refl, Bool, true, false, none, some, arith, if◌then◌else◌}
use open_source.Common.Int.{ℤ, pos, ◌≤ℤ◌}
use open_source.Common.GoTime.{Time, Duration}
use open_source.Common.Float.{Float64}
use open_source.Memory.Window.{empty_window}
use open_source.Memory.Window.Made.{new_sliding_window-makes}
use open_source.Memory.Entry.{IpEntry, entry_limit, entry_with, new_ip_entry}
use open_source.Memory.Backend.{Backend, default_entry}
use open_source.Memory.Backend.State.{IsDuration, Allocates}

module _ (fl : Float64) where
  open fl use {Float}

  abbrev pub made_entry : Float → ℤ → Bool → Duration → Time → IpEntry fl
  made_entry rps burst sliding size now =
      entry_with fl burst now
        (if sliding then some (empty_window size (entry_limit fl rps burst size)) else none)

  entry_limit-positive :
      (rps : Float) (burst : ℤ) (size : Duration) → pos 1 ≤ℤ entry_limit fl rps burst size
  unfolding entry_limit
  entry_limit-positive rps burst size = ground arith

  pub new_ip_entry-made :
      (rps : Float) (burst : ℤ) (sliding : Bool) (size : Duration) (now : Time)
      → Allocates fl rps burst
      → IsDuration size
      → new_ip_entry fl rps burst sliding size now ≡ some (made_entry rps burst sliding size now)
  unfolding new_ip_entry
  new_ip_entry-made rps burst false size now h d = refl
  new_ip_entry-made rps burst true size now h d =
      let limit = entry_limit fl rps burst size in
      let positive = entry_limit-positive rps burst size in
      rw (new_sliding_window-makes size limit (ground (arith, positive), h size d)) refl

  -- The entry of Block, SetTokenBucket and IncrementViolation.
  abbrev pub made_default : Time → Backend fl → IpEntry fl
  made_default now b = made_entry b.rps b.default_burst b.use_sliding b.window_size now

  pub default_entry-made :
      (now : Time) (b : Backend fl)
      → Allocates fl b.rps b.default_burst
      → IsDuration b.window_size
      → default_entry fl now b ≡ some (made_default now b)
  unfolding default_entry
  default_entry-made now b h d =
      new_ip_entry-made b.rps b.default_burst b.use_sliding b.window_size now h d
