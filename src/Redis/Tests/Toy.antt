-- ===== src/Redis/Tests/Toy.antt =====
-- A server in memory that meets what is asked of Redis. Its numbers are whole, and are written as one
-- code, or as two where they are below 0.
use open_source.Common.{
  ℕ, ◌+◌, ◌≡◌, refl, ap, ◌∙◌, List, [], ◌∷◌, ◌++◌, Option, none, some, arith, length, Text, text_eq,
  text_eq_refl, ltb, lt→ltb, Bool, true, false, if◌then◌else◌, ◌&&◌, ◌||◌,
}
use open_source.Common.Int.{ℤ, pos, pos_part, negsuc, leb_ℤ, ltb_ℤ}
use open_source.Common.Float.{whole}
use open_source.Redis.Commands.{Server}
use open_source.Redis.Window.{Answers, outside}
use open_source.Redis.Hashes.{Hashes, WholeSeconds}

pub record Toy : Type 0 where
  pub hashes : Text → Text → Option Text
  pub sets : Text → List (ℤ × Text)
  pub counter : ℕ
  pub lives : Text → Option ℕ  -- the seconds that a key has left

abbrev pub empty : Toy
empty = record { hashes = λ key field. none; sets = λ key. []; counter = 0; lives = λ key. none }

abbrev write_number : ℤ → Text
write_number (pos n) = n ∷ []
write_number (negsuc n) = 0 ∷ n ∷ []

abbrev read_number : Text → Option ℤ
read_number [] = none
read_number (n ∷ []) = some (pos n)
read_number (z ∷ n ∷ rest) = some (negsuc n)

abbrev put : Text → Text → Option Text → Toy → Toy
put key field value s = record s {
  hashes = λ k f. if text_eq k key && text_eq f field then value else s.hashes k f;
}

abbrev put_all : Text → List (Text × Text) → Toy → Toy
put_all key [] s = s
put_all key ((field, value) ∷ pairs) s = put_all key pairs (put key field (some value) s)

abbrev clear_all : Text → List Text → Toy → Toy
clear_all key [] s = s
clear_all key (field ∷ fields) s = clear_all key fields (put key field none s)

abbrev set_to : Text → List (ℤ × Text) → Toy → Toy
set_to key l s = record s { sets = λ k. if text_eq k key then l else s.sets k }

abbrev kept : (low high : ℤ) → List (ℤ × Text) → List (ℤ × Text)
kept low high [] = []
kept low high ((x, m) ∷ l) =
    if ltb_ℤ x low || ltb_ℤ high x then (x, m) ∷ kept low high l else kept low high l

abbrev scores_of : List (ℤ × Text) → List ℤ
scores_of [] = []
scores_of ((x, m) ∷ l) = x ∷ scores_of l

abbrev first_of : List (ℤ × Text) → List Text
first_of [] = []
first_of ((x, m) ∷ l) = m ∷ write_number x ∷ []

abbrev values_of : Text → List Text → Toy → List (Option Text)
values_of key [] s = []
values_of key (field ∷ fields) s = s.hashes key field ∷ values_of key fields s

abbrev live : Text → ℕ → Toy → Toy
live key n s = record s { lives = λ k. if text_eq k key then some n else s.lives k }

abbrev lives_past : ℕ → Option ℕ → Bool
lives_past t none = true
lives_past t (some n) = ltb t n

-- The fields of a key that has lived its time are gone.
abbrev pub wait : ℕ → Toy → Toy
wait t s = record s { hashes = λ k f. if lives_past t (s.lives k) then s.hashes k f else none }

abbrev pub toy : Server whole
toy = record {
  State = Toy;
  deliver = λ s. (s, some tt);
  hget = λ key field s. (s, some (s.hashes key field));
  hmget = λ key fields s. (s, some (values_of key fields s));
  hset = λ key pairs s. (put_all key pairs s, some tt);
  hdel = λ key fields s. (clear_all key fields s, some tt);
  del = λ key s. (set_to key [] s, some tt);
  expire = λ key x s. (live key (pos_part x) s, some tt);
  hincr_by = λ key field n s. (s, some n);
  incr = λ key s. (record s { counter = s.counter + 1 }, some (pos s.counter));
  zadd = λ key x member s. (set_to key (s.sets key ++ (x, member) ∷ []) s, some tt);
  zcard = λ key s. (s, some (pos (length (scores_of (s.sets key)))));
  zrem_range = λ key low high s. (set_to key (kept low high (s.sets key)) s, some tt);
  zrange_first = λ key s. (s, some (first_of (s.sets key)));
  exec_empty = λ s. (s, some tt);
  to_number = read_number;
  show = write_number;
  floor = λ x. x;
  ceil = λ x. x;
  fmax = λ a b. if leb_ℤ a b then b else a;
  parse_int = read_number;
  parse_float = read_number;
  format_int = write_number;
}

scores_of-kept :
    (low high : ℤ) (l : List (ℤ × Text))
    → scores_of (kept low high l) ≡ outside whole toy low high (scores_of l)
unfolding outside
scores_of-kept low high [] = refl
scores_of-kept low high ((x, m) ∷ l) = ground (arith, scores_of-kept low high l)

set_to_self : (key : Text) (l : List (ℤ × Text)) (s : Toy) → (set_to key l s).sets key ≡ l
set_to_self key l s = rw (text_eq_refl key) refl

oldest_of :
    (l : List (ℤ × Text)) {x : ℤ} {rest : List ℤ}
    → scores_of l ≡ x ∷ rest
    → (member : Text) × (score : Text) × (y : ℤ) × (some (first_of l) ≡ some (member ∷ score ∷ []))
      × (read_number score ≡ some y)
oldest_of [] h = absurd (ground (arith, h))
oldest_of ((pos n, m) ∷ l) h = (m, write_number (pos n), pos n, refl, refl)
oldest_of ((negsuc n, m) ∷ l) h = (m, write_number (negsuc n), negsuc n, refl, refl)

pub toy-Answers : Answers whole toy
toy-Answers = record {
  scores = λ key s. scores_of (s.sets key);
  delivers = λ s. refl;
  deliver_keeps = λ key s. refl;
  hget_keeps = λ key hash field s. refl;
  zrem_answers = λ key low high s. refl;
  zrem_removes = λ key low high s.
      ap scores_of (set_to_self key (kept low high (s.sets key)) s)
      ∙ scores_of-kept low high (s.sets key);
  zcard_counts = λ key s. refl;
  zcard_keeps = λ key s. refl;
  incr_answers = λ key s. (pos s.counter, refl);
  zadd_answers = λ key x member s. refl;
  zrange_oldest = λ key s h. oldest_of (s.sets key) h;
}

pub toy-Hashes : Hashes whole toy wait
toy-Hashes = record {
  delivers = λ s. refl;
  hset_answers = λ key pairs s. refl;
  hset_stores = λ key field value s. rw (text_eq_refl key, text_eq_refl field) refl;
  expire_answers = λ key n s positive small. refl;
  lives = λ key field n t s small early. rw (text_eq_refl key) (rw (lt→ltb t n early) refl);
  expires = λ key field n t s positive late small.
      let past : ltb t n ≡ false = ground arith in rw (text_eq_refl key) (rw past refl);
}

pub whole-WholeSeconds : WholeSeconds whole toy
whole-WholeSeconds = record {
  seconds_exact = λ n small. ap pos (omega arith);
  plus_exact = λ a b small. ground arith;
  not_below_zero = λ n small. ground arith;
  max_exact = λ a b small small_b. ground arith;
  reads_back = λ n small. refl;
}
