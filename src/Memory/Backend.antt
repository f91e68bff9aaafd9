-- ===== src/Memory/Backend.antt =====
-- Backend of middleware/storage/memory/store.go. An operation returns the new state and its result,
-- or panics (`none`); no operation of this backend returns an error. Where the code reads the clock
-- more than once in a call, each reading is an argument.
pub mod State
pub mod Made
pub mod Fetch
pub mod Updates
pub mod Blocks
pub mod Calls
pub mod Violations
pub mod Counted
use open_source.Common.{
  ℕ, zero, suc, ◌+◌, ◌-◌, ◌/◌, Bool, true, false, List, [], ◌∷◌, Option, none, some, ◌==◌, ltb,
  if◌then◌else◌, Text,
}
use open_source.Common.Int.{ℤ, pos, negsuc, ltb_ℤ, add_int32, sub_int32, to_int32}
use open_source.Common.GoTime.{Time, Duration, add, unix, until_or_zero, second}
use open_source.Common.Float.{Float64}
use open_source.Memory.Window
use open_source.Memory.Window.{SlidingWindow, new_sliding_window}
use open_source.Memory.Cache
use open_source.Memory.Cache.{Ptr, Links, LruCache, new_lru_cache, ◌>>=◌}
use open_source.Memory.Entry.{TokenBucket, bucket_allow, IpEntry, new_ip_entry, is_blocked, touch}

module _ (fl : Float64) where
  open fl use {Float, of_int}

  -- `entries` holds what an address points at; `fresh` is the next address that is not in use.
  pub record Backend : Type 0 where
    pub cache : LruCache
    pub use_sliding : Bool
    pub window_size : Duration
    pub rps : Float
    pub default_burst : ℤ
    pub entries : Ptr → IpEntry fl
    pub fresh : Ptr

  unfoldable pub new_backend :
      ℤ
      → Bool
      → Duration
      → Float
      → ℤ
      → (head tail : Ptr) → Links
      → (Ptr → IpEntry fl)
      → Option Backend
  new_backend max_ips use_sliding window_size rps burst head tail links entries = do
    c ← new_lru_cache max_ips head tail links
    some (record {
      cache = c;
      use_sliding = use_sliding;
      window_size = window_size;
      rps = rps;
      default_burst = burst;
      entries = entries;
      fresh = head + tail + 1;
    })

  -- A write through the address of an entry.
  unfoldable pub store : Ptr → IpEntry fl → Backend → Backend
  store p e b = record b { entries = λ q. if q == p then e else b.entries q }

  -- The lines that open most methods: the entry of the key, or a new one that is added.
  -- `made` is what the making of a new one gives, which happens only where there is none.
  unfoldable pub fetch : Text → Option (IpEntry fl) → Backend → Option (Backend × Ptr)
  fetch key made b = do
    (c, found) ← Cache.get key b.cache
    elim found [
      | some p ↦ some (record b { cache = c }, p)
      | none ↦ do
        new ← made
        c' ← Cache.add key b.fresh c
        some (record (store b.fresh new b) { cache = c'; fresh = b.fresh + 1 }, b.fresh)
    ]

  -- The entry that the methods other than `Allow` and `AllowSlidingWindow` make.
  unfoldable pub default_entry : Time → Backend → Option (IpEntry fl)
  default_entry now b = new_ip_entry fl b.rps b.default_burst b.use_sliding b.window_size now

  unfoldable pub allow_bucket_entry :
      Float → ℤ → (checked left filled : Time) → IpEntry fl → IpEntry fl × (Bool × Duration)
  allow_bucket_entry rps burst checked left filled e =
      let (bucket, admitted) = bucket_allow fl rps burst filled e.bucket in
      if is_blocked fl checked e
      then (e, (false, until_or_zero left e.blocked_until))
      else (record e { bucket = bucket }, (admitted, pos 0))

  unfoldable pub allow :
      Text
      → Float
      → ℤ
      → (made seen checked left filled : Time) → Backend
      → Option (Backend × (Bool × Duration))
  allow key rps burst made seen checked left filled b = do
    (b', p) ← fetch key (new_ip_entry fl rps burst false (pos 0) made) b
    let (e, answer) =
        allow_bucket_entry rps burst checked left filled (touch fl seen (b'.entries p))
    some (store p e b', answer)

  -- The window of an entry, made on the first use.
  unfoldable pub window_of : Duration → ℤ → IpEntry fl → Option SlidingWindow
  window_of window_size limit e = elim e.sliding_window [
    | some sw ↦ some sw
    | none ↦ new_sliding_window window_size limit
  ]

  unfoldable pub allow_entry :
      ℤ
      → Duration
      → (checked left counted : Time) → IpEntry fl
      → Option (IpEntry fl × (Bool × Duration))
  unfolding window_of
  allow_entry limit window_size checked left counted e =
      if is_blocked fl checked e then some (e, (false, until_or_zero left e.blocked_until)) else do
        window ← window_of window_size limit e
        let (sw, admitted) = Window.allow counted window
        some (
          record e { sliding_window = some sw },
          (admitted, if admitted then pos 0 else window_size),
        )

  unfoldable pub allow_sliding_window :
      Text
      → ℤ
      → Duration
      → (made seen checked left counted : Time) → Backend
      → Option (Backend × (Bool × Duration))
  allow_sliding_window key limit window_size made seen checked left counted b = do
    (b', p) ← fetch key (new_ip_entry fl b.rps b.default_burst true window_size made) b
    (e, answer) ← allow_entry limit window_size checked left counted (touch fl seen (b'.entries p))
    some (store p e b', answer)

  unfoldable pub block_entry : Duration → (now : Time) → IpEntry fl → IpEntry fl
  block_entry duration now e =
      if ltb_ℤ duration (pos 0)
      then record e { blocked_until = 0; violation_count = pos 0 }
      else record e { blocked_until = add now duration }

  unfoldable pub block : Text → Duration → (made now : Time) → Backend → Option Backend
  unfolding block_entry
  block key duration made now b = do
    (b', p) ← fetch key (default_entry made b) b
    some (store p (block_entry duration now (b'.entries p)) b')

  -- The lines that open the methods that only read: no entry is made.
  unfoldable pub read {ℓ} :
      {A : Type ℓ} → Text → A → (IpEntry fl → A) → Backend → Option (Backend × A)
  read key absent f b = do
    (c, found) ← Cache.get key b.cache
    elim found [
      | some p ↦ some (record b { cache = c }, f (b.entries p))
      | none ↦ some (record b { cache = c }, absent)
    ]

  unfoldable pub is_key_blocked : Text → (now : Time) → Backend → Option (Backend × (Bool × Time))
  is_key_blocked key now b = read key (false, 0) (λ e. (is_blocked fl now e, e.blocked_until)) b

  unfoldable pub get_token_bucket : Text → Backend → Option (Backend × (Float × Time))
  get_token_bucket key b =
      read key (of_int (pos 0), 0) (λ e. (e.bucket.tokens, e.bucket.last_update)) b

  unfoldable pub set_token_bucket : Text → Float → Time → (made : Time) → Backend → Option Backend
  set_token_bucket key tokens last_update made b = do
    (b', p) ← fetch key (default_entry made b) b
    let bucket : TokenBucket fl = record { tokens = tokens; last_update = last_update }
    some (store p (record (b'.entries p) { bucket = bucket }) b')

  unfoldable pub window_count : Time → IpEntry fl → ℕ
  window_count now e = elim e.sliding_window [ none ↦ 0 | some sw ↦ Window.count now sw ]

  unfoldable pub get_sliding_window_count : Text → (now : Time) → Backend → Option (Backend × ℕ)
  unfolding window_count
  get_sliding_window_count key now b = read key 0 (window_count now) b

  unfoldable pub get_violation_count : Text → Backend → Option (Backend × ℤ)
  get_violation_count key b = read key (pos 0) (λ e. e.violation_count) b

  unfoldable pub increment_violation : Text → (made now : Time) → Backend → Option (Backend × ℤ)
  increment_violation key made now b = do
    (b', p) ← fetch key (default_entry made b) b
    let count = add_int32 (b'.entries p).violation_count (pos 1)
    let e = record (b'.entries p) { last_violation = unix now; violation_count = count }
    some (store p e b', count)

  -- The body of the loop of `DecayViolations` for an entry. Of a clock that went back, the quotient
  -- is not positive, here 0.
  unfoldable pub decay_entry : ℕ → ℕ → IpEntry fl → IpEntry fl
  decay_entry now decay_secs e =
      let hours_since = (now - e.last_violation) / decay_secs in
      let decay = to_int32 (hours_since / 2) in
      let new_count = sub_int32 e.violation_count decay in
      if ltb 0 hours_since
      then (if ltb_ℤ (pos 0) decay
          then record e { violation_count = if ltb_ℤ new_count (pos 0) then pos 0 else new_count }
          else e)
      else e

  -- A division by 0 panics, but only once a key is there.
  unfoldable pub decay_violations : List Text → ℕ → ℕ → Backend → Option Backend
  unfolding decay_entry
  decay_violations [] decay_secs now b = some b
  decay_violations (key ∷ keys) decay_secs now b = do
    (c, found) ← Cache.get key b.cache
    b' ← elim found [
      | none ↦ some (record b { cache = c })
      | some p ↦
          if decay_secs == 0
          then none
          else some (store p (decay_entry now decay_secs (b.entries p)) (record b { cache = c }))
    ]
    decay_violations keys decay_secs now b'
