-- ===== src/Redis/Commands.antt =====
-- The server of the backend of middleware/storage/redis/store.go and package redis, as far as the
-- methods and their scripts call them. Both are an argument.
use open_source.Common.{◌≡◌, refl, List, Option, none, some, Text}
use open_source.Common.Int.{ℤ}
use open_source.Common.Float.{Float64}

-- A command or a script: the server after it, and none for an error, which leaves what was done before.
abbrev pub Command : Type 0 → Type 0 → Type 0
Command S A = S → S × Option A

module _ {S A B : Type 0} where
  infixl 5 ◌>>=◌ ◌>>◌
  abbrev pub ◌>>=◌ : Command S A → (A → Command S B) → Command S B
  ◌>>=◌ m f s = let (s', r) = m s in elim r [ none ↦ (s', none) | some a ↦ f a s' ]

  abbrev pub ◌>>◌ : Command S A → Command S B → Command S B
  m >> k = m >>= λ _. k

  -- A command that answers is followed by the rest.
  pub >>=-some :
      (m : Command S A) (f : A → Command S B) (s : S) {a : A}
      → (m s).1 ≡ some a
      → (m >>= f) s ≡ f a (m s).0
  >>=-some m f s e = rw (e, ◌>>=◌) refl

module _ {S A : Type 0} where
  abbrev pub pure : A → Command S A
  pure a s = (s, some a)

  -- An error of Lua, such as arithmetic with nil.
  abbrev pub fail : Command S A
  fail s = (s, none)

  abbrev pub or_fail : Option A → Command S A
  or_fail none = fail
  or_fail (some a) = pure a

-- A value of a hash is a text, and a score of a sorted set a number. A number goes to the server in a
-- form that gives it back.
pub record Server (fl : Float64) : Type 1 where
  pub State : Type 0
  pub deliver : Command State (Unit {0})  -- the call of a script reaches the server
  pub hget : Text → Text → Command State (Option Text)
  pub hmget : Text → List Text → Command State (List (Option Text))
  pub hset : Text → List (Text × Text) → Command State (Unit {0})  -- HSET and HMSET
  pub hdel : Text → List Text → Command State (Unit {0})
  pub del : Text → Command State (Unit {0})
  pub expire : Text → fl.Float → Command State (Unit {0})
  pub hincr_by : Text → Text → ℤ → Command State ℤ
  pub incr : Text → Command State ℤ
  pub zadd : Text → fl.Float → Text → Command State (Unit {0})
  pub zcard : Text → Command State ℤ
  pub zrem_range : Text → fl.Float → fl.Float → Command State (Unit {0})  -- ZREMRANGEBYSCORE
  pub zrange_first : Text → Command State (List Text)  -- ZRANGE key 0 0 WITHSCORES
  pub exec_empty : Command State (Unit {0})  -- Exec of a pipeline without commands
  pub to_number : Text → Option fl.Float  -- tonumber of a text
  pub show : fl.Float → Text
  pub floor : fl.Float → fl.Float
  pub ceil : fl.Float → fl.Float
  pub fmax : fl.Float → fl.Float → fl.Float
  pub parse_int : Text → Option ℤ  -- strconv.ParseInt
  pub parse_float : Text → Option fl.Float  -- strconv.ParseFloat
  pub format_int : ℤ → Text  -- strconv.FormatInt
