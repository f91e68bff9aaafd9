-- ===== src/Redis/Window.antt =====
-- The decision of AllowSlidingWindow in middleware/storage/redis/store.go, over a server that answers.
use open_source.Common.{
  ◌≡◌, refl, ap, subst, ◌⊎◌, ◌∙◌, Bool, true, false, List, [], ◌∷◌, ◌++◌, Option, none, some, arith,
  length, Text, codes, Bool-cases, inl, inr, if◌then◌else◌, ◌||◌,
}
use open_source.Common.Int.{ℤ, pos, quot}
use open_source.Common.GoTime.{Duration}
use open_source.Common.Float.{Float64}
use open_source.Breaker.{allow}
use open_source.Redis.Commands.{>>=-some, Server}
use open_source.Redis.Scripts.{
  window_key, number_of, still_blocked, admit, deny, slide, allow_sliding_script,
}
use open_source.Redis.Admitted.{guarded_admitted, recorded_ok}
use open_source.Redis.Store.{
  backend_unavailable, server_error, Clock, Result, unix_milli, Backend, recorded, run,
  sliding_answer, allow_sliding_window,
}

List-cases {ℓ} :
    {A : Type ℓ} (xs : List A) → (xs ≡ []) ⊎ ((x : A) × ((rest : List A) × (xs ≡ x ∷ rest)))
List-cases [] = inl refl
List-cases (x ∷ xs) = inr (x, (xs, refl))

module _ (fl : Float64) (srv : Server fl) where
  open fl use {Float, of_int, minus, greater}
  open srv use {State}

  -- The scores below `low` or above `high`.
  unfoldable pub outside : (low high : Float) → List Float → List Float
  outside low high [] = []
  outside low high (x ∷ xs) =
      if greater low x || greater x high then x ∷ outside low high xs else outside low high xs

  -- A server that answers the commands, and the sorted sets that it keeps, as its documentation
  -- describes them. The scores of a set stand in no particular order.
  pub record Answers : Type 0 where
    pub scores : Text → State → List Float
    pub delivers : (s : State) → (srv.deliver s).1 ≡ some tt
    pub deliver_keeps : (key : Text) (s : State) → scores key (srv.deliver s).0 ≡ scores key s
    pub hget_keeps :
        (key hash field : Text) (s : State) → scores key (srv.hget hash field s).0 ≡ scores key s
    pub zrem_answers :
        (key : Text) (low high : Float) (s : State) → (srv.zrem_range key low high s).1 ≡ some tt
    pub zrem_removes :
        (key : Text) (low high : Float) (s : State)
        → scores key (srv.zrem_range key low high s).0 ≡ outside low high (scores key s)
    pub zcard_counts :
        (key : Text) (s : State) → (srv.zcard key s).1 ≡ some (pos (length (scores key s)))
    pub zcard_keeps : (key : Text) (s : State) → scores key (srv.zcard key s).0 ≡ scores key s
    pub incr_answers : (key : Text) (s : State) → (n : ℤ) × ((srv.incr key s).1 ≡ some n)
    pub zadd_answers :
        (key : Text) (x : Float) (member : Text) (s : State) → (srv.zadd key x member s).1 ≡ some tt
    pub zrange_oldest :
        (key : Text) (s : State) {x : Float} {rest : List Float}
        → scores key s ≡ x ∷ rest
        → (member : Text) × (score : Text) × (y : Float) × ((srv.zrange_first key s).1
            ≡ some (member ∷ score ∷ []))
          × (srv.to_number score ≡ some y)

  -- The server takes the number for the seconds that a key has left: a whole one, say, that it can
  -- add to its clock.
  abbrev pub TakesExpiry : Float → Type 0
  TakesExpiry window = (key : Text) (s : State) → (srv.expire key window s).1 ≡ some tt

  -- A decision of the script, with some second number.
  abbrev Decides : Bool → Option (List ℤ) → Type 0
  Decides admitted r = (n : ℤ) × (r ≡ some ((if admitted then pos 1 else pos 0) ∷ n ∷ []))

  module _ (srv_ok : Answers) where
    open srv_ok use {scores}

    admit-Decides :
        (key : Text) (limit window now current : Float) (s : State)
        → TakesExpiry window
        → Decides true (admit fl srv key limit window now current s).1
    unfolding admit
    admit-Decides key limit window now current s expiry =
        let set = window_key fl srv key in
        let seq = key ++ codes ":seq" in
        let (n, counted) = srv_ok.incr_answers seq s in
        let s₁ = (srv.incr seq s).0 in
        let member = srv.show now ++ (codes ":" ++ srv.show (of_int n)) in
        let s₂ = (srv.zadd set now member s₁).0 in
        (
          fl.to_int (minus (minus limit current) (of_int (pos 1))),
          ground (arith, counted, srv_ok.zadd_answers set now member s₁, expiry set s₂),
        )

    deny-Decides :
        (key : Text) (window now : Float) (s : State) {x : Float} {rest : List Float}
        → scores (window_key fl srv key) s ≡ x ∷ rest
        → Decides false (deny fl srv key window now s).1
    unfolding deny
    deny-Decides key window now s nonempty =
        let set = window_key fl srv key in
        let (member, score, y, oldest, reads) = srv_ok.zrange_oldest set s nonempty in
        (
          fl.to_int (srv.ceil (fl.divide (minus (fl.plus y window) now) (of_int (pos 1000)))),
          ground (arith, oldest, reads),
        )

    -- How many scores the removal of the old ones leaves.
    abbrev pub count_kept : (window now : Float) → List Float → Float
    count_kept window now l = of_int (pos (length (outside (of_int (pos 0)) (minus now window) l)))

    abbrev pub fresh : Text → (window now : Float) → State → Float
    fresh key window now s = count_kept window now (scores (window_key fl srv key) s)

    -- A decision by what a set holds is one by what it held, where it was kept.
    Decides-kept :
        (limit window now : Float) (r : Option (List ℤ)) {l l' : List Float}
        → l ≡ l'
        → Decides (greater limit (count_kept window now l)) r
        → Decides (greater limit (count_kept window now l')) r
    Decides-kept limit window now r same d =
        subst (λ (l : List Float). Decides (greater limit (count_kept window now l)) r) same d

    slide-Decides :
        (key : Text) (limit window now : Float) (s : State)
        → TakesExpiry window
        → greater limit (of_int (pos 0)) ≡ true
        → Decides (greater limit (fresh key window now s)) (slide fl srv key limit window now s).1
    unfolding slide
    slide-Decides key limit window now s expiry positive =
        let set = window_key fl srv key in
        let cutoff = minus now window in
        let s₁ = (srv.zrem_range set (of_int (pos 0)) cutoff s).0 in
        let s₂ = (srv.zcard set s₁).0 in
        let counts : (srv.zcard set s₁).1
            ≡ some (pos (length (outside (of_int (pos 0)) cutoff (scores set s)))) =
          srv_ok.zcard_counts set s₁
          ∙ ap (λ l. some (pos (length l))) (srv_ok.zrem_removes set (of_int (pos 0)) cutoff s) in
        let removed = srv_ok.zrem_answers set (of_int (pos 0)) cutoff s in
        let kept : scores set s₂ ≡ outside (of_int (pos 0)) cutoff (scores set s) =
          srv_ok.zcard_keeps set s₁ ∙ srv_ok.zrem_removes set (of_int (pos 0)) cutoff s in
        elim (Bool-cases (greater limit (fresh key window now s))) [
          | inl below ↦
              let (n, e) = admit-Decides key limit window now (fresh key window now s) s₂ expiry in
              (n, rw below (ground (arith, removed, counts, below, e)))
          | inr full ↦ elim (List-cases (outside (of_int (pos 0)) cutoff (scores set s))) [
            | inl empty ↦ absurd (ground (arith, positive, full, empty))
            | inr (x, (rest, nonempty)) ↦
                let (n, e) = deny-Decides key window now s₂ (kept ∙ nonempty) in
                (n, rw full (ground (arith, removed, counts, full, e)))
          ]
        ]

    -- The instant of the call and the size of the window, in milliseconds.
    abbrev pub now_of : Clock → Float
    now_of clock = of_int (pos (unix_milli clock.called))

    abbrev pub millis : Duration → Float
    millis size = of_int (quot size (pos 1000000))

    -- The server knows of no block of the key that lasts at the instant.
    abbrev pub Unblocked : Text → Float → State → Type 0
    Unblocked key now s =
        (value : Option Text) × ((srv.hget key (codes "blocked_until") s).1 ≡ some value)
        × (still_blocked fl srv (number_of fl srv value) now ≡ none)

    script-Decides :
        (key : Text) (limit window now : Float) (s : State)
        → TakesExpiry window
        → greater limit (of_int (pos 0)) ≡ true
        → Unblocked key now s
        → Decides
            (greater limit (fresh key window now s))
            (allow_sliding_script fl srv key limit window now s).1
    unfolding allow_sliding_script
    script-Decides key limit window now s expiry positive (value, found, free) =
        let s₁ = (srv.hget key (codes "blocked_until") s).0 in
        let (n, e) = slide-Decides key limit window now s₁ expiry positive in
        let same = srv_ok.hget_keeps (window_key fl srv key) key (codes "blocked_until") s in
        let step : (allow_sliding_script fl srv key limit window now s).1
            ≡ (slide fl srv key limit window now s₁).1 =
          ground (arith, found, free) in
        Decides-kept limit window now _ same (n, step ∙ e)

    answer-Decides :
        (admitted : Bool) (r : Option (List ℤ))
        → Decides admitted r
        → (values : List ℤ) × (r ≡ some values)
          × ((sliding_answer fl srv values).0.0 ≡ admitted)
          × ((sliding_answer fl srv values).1 ≡ none)
    unfolding sliding_answer
    answer-Decides true r (n, e) = (_, e, refl, refl)
    answer-Decides false r (n, e) = (_, e, refl, refl)

    -- Over a server that answers, and that takes the milliseconds of the window for an expiry, with a
    -- limit above 0, and for a key that the server knows no block of: `AllowSlidingWindow`, once its
    -- breaker admits it, returns no error, and admits the request exactly if the server holds fewer
    -- requests of the key than the limit, beside those that the window has left behind, which are
    -- those with a score from 0 to the instant less the window.
    pub allow_sliding_window-admits :
        (clock : Clock) (key : Text) (limit : ℤ) (size : Duration) (b : Backend fl srv)
        → TakesExpiry (millis size)
        → (allow clock.admitted b.circuit_breaker).1 ≡ true
        → greater (of_int limit) (of_int (pos 0)) ≡ true
        → Unblocked (b.key_prefix ++ key) (now_of clock) (srv.deliver b.server).0
        → let answer = (allow_sliding_window fl srv clock key limit size b).1 in
          (answer.1 ≡ none)
          × (answer.0.0
              ≡ greater
                  (of_int limit)
                  (fresh (b.key_prefix ++ key) (millis size) (now_of clock) b.server))
    unfolding allow_sliding_window
    allow_sliding_window-admits clock key limit size b expiry admitted positive free =
        let name = b.key_prefix ++ key in
        let script = allow_sliding_script fl srv name (of_int limit) (millis size) (now_of clock) in
        let refused : Result (Bool × Duration) = ((false, pos 0), some backend_unavailable) in
        let failed : Result (Bool × Duration) = ((false, pos 0), some server_error) in
        let s₁ = (srv.deliver b.server).0 in
        let kept = srv_ok.deliver_keeps (window_key fl srv name) b.server in
        let decided = Decides-kept (of_int limit) (millis size) (now_of clock) (script s₁).1 kept (
          script-Decides name (of_int limit) (millis size) (now_of clock) s₁ expiry positive
            free) in
        let (values, found, admits, no_error) =
          answer-Decides (greater (of_int limit) (fresh name (millis size) (now_of clock) b.server))
            (script s₁).1 decided in
        let ran : (run fl srv script b.server).1 ≡ some values =
          ap (λ r. r.1) (>>=-some srv.deliver (λ _. script) b.server (srv_ok.delivers b.server))
          ∙ found in
        let whole =
          (guarded_admitted fl srv clock refused
            (recorded fl srv (run fl srv script) failed (sliding_answer fl srv)) b admitted).0
          ∙ (recorded_ok fl srv (run fl srv script) failed (sliding_answer fl srv) b.server
              ran).0 in
        (ap (λ a. a.1) whole ∙ no_error, ap (λ a. a.0.0) whole ∙ admits)
