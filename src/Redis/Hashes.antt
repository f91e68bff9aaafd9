-- ===== src/Redis/Hashes.antt =====
-- What the blocks of middleware/storage/redis/store.go rely on: hashes and the expiry of keys in
-- Redis, and whole numbers in the place of float64.
use open_source.Common.{
  ℕ, ◌+◌, ◌≤◌, ◌<◌, ltb, if◌then◌else◌, ◌≡◌, false, List, [], ◌∷◌, some, none, Text,
}
use open_source.Common.Int.{pos}
use open_source.Common.GoTime.{seconds}
use open_source.Common.Float.{Float64}
use open_source.Redis.Commands.{Server}

-- `math.max` of whole numbers
abbrev pub max_of : ℕ → ℕ → ℕ
max_of a b = if ltb a b then b else a

-- 2^53, up to which a float64 is exact on whole numbers.
abbrev pub exact_max : ℕ
exact_max = 9007199254740992

module _ (fl : Float64) (srv : Server fl) where
  open fl use {of_int, plus, greater}
  open srv use {State}

  -- Hashes and EXPIRE, as the documentation of Redis describes them; `pass t` is what becomes of the
  -- server in `t` seconds without a call. A key with n seconds to live has its fields before n seconds
  -- have passed, and is gone from then on.
  pub record Hashes (pass : ℕ → State → State) : Type 0 where
    pub delivers : (s : State) → (srv.deliver s).1 ≡ some tt
    pub hset_answers :
        (key : Text) (pairs : List (Text × Text)) (s : State) → (srv.hset key pairs s).1 ≡ some tt
    pub hset_stores :
        (key field value : Text) (s : State)
        → (srv.hget key field (srv.hset key ((field, value) ∷ []) s).0).1 ≡ some (some value)
    pub expire_answers :
        (key : Text) (n : ℕ) (s : State)
        → 1 ≤ n
        → n ≤ exact_max
        → (srv.expire key (of_int (pos n)) s).1 ≡ some tt
    pub lives :
        (key field : Text) (n t : ℕ) (s : State)
        → n ≤ exact_max
        → t < n
        → (srv.hget key field (pass t (srv.expire key (of_int (pos n)) s).0)).1
          ≡ (srv.hget key field s).1
    pub expires :
        (key field : Text) (n t : ℕ) (s : State)
        → 1 ≤ n
        → n ≤ t
        → n ≤ exact_max
        → (srv.hget key field (pass t (srv.expire key (of_int (pos n)) s).0)).1 ≡ some none

  -- Whole numbers of seconds up to 2^53 are exact, and are written and read as such.
  pub record WholeSeconds : Type 0 where
    pub seconds_exact : (n : ℕ) → n ≤ exact_max → fl.seconds (seconds n) ≡ of_int (pos n)
    pub plus_exact :
        (a b : ℕ)
        → a + b ≤ exact_max
        → plus (of_int (pos a)) (of_int (pos b)) ≡ of_int (pos (a + b))
    pub not_below_zero : (n : ℕ) → n ≤ exact_max → greater (of_int (pos 0)) (of_int (pos n)) ≡ false
    pub max_exact :
        (a b : ℕ)
        → a ≤ exact_max
        → b ≤ exact_max
        → srv.fmax (of_int (pos a)) (of_int (pos b)) ≡ of_int (pos (max_of a b))
    pub reads_back :
        (n : ℕ) → n ≤ exact_max → srv.parse_int (srv.show (of_int (pos n))) ≡ some (pos n)
