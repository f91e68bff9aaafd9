-- ===== src/Events/Cleanup.antt =====
-- What Cleanup of middleware/base/events.go removes.
use open_source.Common.{
  ℕ, zero, suc, ◌≡◌, ◌≢◌, refl, ap, Bool, true, false, ◌⊎◌, inl, inr, ◌≤◌, List, [], ◌∷◌, some,
  arith, Option-cases, drop, take, Text, codes, text_eq, text_eq_iff,
}
use open_source.Common.GoTime.{Time}
use open_source.Events.Store.{Host, EventStore, expired, remove_expired, cleanup}
use mathlib.Core.List.{Mem, mem-cons_self, mem-cons_of_mem}

-- A text that time.Parse reads as a date has digits and dashes only.
abbrev pub DatesOnly : Host → Type 0
DatesOnly host =
    (text : Text) (date : Time) (c : ℕ)
    → host.parse_day text ≡ some date
    → Mem c text
    → (c ≡ 45) ⊎ ((48 ≤ c) × (c ≤ 57))

mem-take : (k : ℕ) (l : Text) (x : ℕ) (rest : Text) → drop k l ≡ x ∷ rest → Mem x (take (suc k) l)
mem-take zero [] x rest h = ground arith
mem-take zero (y ∷ l) x rest h = let same : y ≡ x = ground arith in rw same mem-cons_self
mem-take (suc k) [] x rest h = ground arith
mem-take (suc k) (y ∷ l) x rest h = mem-cons_of_mem y (mem-take k l x rest h)

module _ (host : Host) (dates : DatesOnly host) where
  -- The tenth character of a name of 14 that ends in .json is the dot.
  expired-never : (cutoff : Time) (name : Text) → expired host cutoff name ≡ false
  unfolding expired
  expired-never cutoff name = elim (Option-cases (host.parse_day (take 10 name))) [
    | inl unread ↦ ground (arith, unread)
    | inr (date, read) ↦
        let no_dot : text_eq (drop 9 name) (codes ".json") ≢ true = λ h.
          let dot = mem-take 9 name 46 (codes "json") ((text_eq_iff _ _).0 h) in
          absurd (elim (dates (take 10 name) date 46 read dot) [
            | inl dash ↦ omega arith
            | inr digit ↦ omega arith
          ]) in
        ground (arith, no_dot)
  ]

  remove_expired-all :
      (cutoff : Time) (files : List (Text × host.Data)) → remove_expired host cutoff files ≡ files
  unfolding remove_expired
  remove_expired-all cutoff [] = refl
  remove_expired-all cutoff ((name, content) ∷ files) =
      rw (expired-never cutoff name)
        (ap (λ l. (name, content) ∷ l) (remove_expired-all cutoff files))

  -- Where time.Parse takes no text with a dot for a date, Cleanup, and with it Close, removes no file,
  -- whenever it is called and however old the files are.
  pub cleanup_keeps :
      (lists : Bool) (now : Time) (s : EventStore host) → (cleanup host lists now s).0 ≡ s
  unfolding cleanup
  cleanup_keeps true now s = ap (λ files. record s { files = files }) (remove_expired-all _ s.files)
  cleanup_keeps false now s = refl
