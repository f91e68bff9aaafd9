-- ===== src/Pipeline/Priority.antt =====
-- Which path limit a request gets: the sort of Validate in middleware/base/config.go, and the loop of
-- getRateLimits in middleware/routing/middleware.go that takes the first that fits.
mod Tests
use open_source.Common.{
  ◌≡◌, Bool, true, false, List, [], ◌∷◌, Option, none, some, arith, Text, has_prefix, Bool-cases,
  inl, inr,
}
use open_source.Common.Int.{ltb_ℤ, ◌≤ℤ◌}
use open_source.Common.Float.{Float64}
use mathlib.Core.HLevel.{⊥_prop}
use mathlib.Core.Logic.Or
use mathlib.Core.List.{Mem, Perm, mem-cons, not-mem-nil, mem-cons_self, mem-cons_of_mem}
use mathlib.Core.List.Perm
use native.Mathlib.Bridge.{le_prop}
use open_source.Configuration.Settings.{Config, PathLimit}
use open_source.Configuration.Validate.{
  SortSlice, memory_defaults, other_defaults, by_priority, validate,
}
use open_source.Configuration.Accepted.{accepts→passes, validate-passes}
use open_source.Pipeline.Limits.{static_limit}

module _ (fl : Float64) where
  -- The order that Validate sorts by.
  abbrev pub higher : PathLimit fl → PathLimit fl → Bool
  higher a b = ltb_ℤ b.priority a.priority

  -- No later one is higher than `a`.
  abbrev pub Above : PathLimit fl → List (PathLimit fl) → Type 0
  Above a [] = Unit
  Above a (b ∷ bs) = (higher b a ≡ false) × Above a bs

  abbrev pub Descending : List (PathLimit fl) → Type 0
  Descending [] = Unit
  Descending (a ∷ rest) = Above a rest × Descending rest

  -- What sort.Slice promises: the same elements, and none that is less than one before it.
  pub record Sorts (sort_slice : SortSlice fl) : Type 0 where
    pub perm : (l : List (PathLimit fl)) → Perm (sort_slice higher l) l
    pub descending : (l : List (PathLimit fl)) → Descending (sort_slice higher l)

  -- The limit for a path is one of the limits whose prefix the path has, and none of these is of a
  -- higher priority; or there is no such limit.
  abbrev pub Best : Text → List (PathLimit fl) → Option (PathLimit fl) → Type 0
  Best path limits none = (m : PathLimit fl) → Mem m limits → has_prefix path m.prefix ≡ true → ⊥
  Best path limits (some l) =
      Mem l limits
      × (has_prefix path l.prefix ≡ true)
      × ((m : PathLimit fl)
          → Mem m limits
          → has_prefix path m.prefix ≡ true
          → m.priority ≤ℤ l.priority)

  Above→le :
      (a : PathLimit fl) (l : List (PathLimit fl)) (m : PathLimit fl)
      → Above a l
      → Mem m l
      → m.priority ≤ℤ a.priority
  Above→le a [] m h mem = absurd (not-mem-nil mem)
  Above→le a (b ∷ l) m h mem =
      Or.elim le_prop (mem-cons.0 mem) (λ e. rw e (ground (arith, h.0))) (λ r. Above→le a l m h.1 r)

  misfit :
      (path : Text) (a m : PathLimit fl)
      → m ≡ a
      → has_prefix path a.prefix ≡ false
      → has_prefix path m.prefix ≡ true
      → ⊥
  misfit path a m e misses fits = cc

  -- A limit in front whose prefix the path does not have changes nothing.
  Best-cons :
      (path : Text) (a : PathLimit fl) (l : List (PathLimit fl)) (o : Option (PathLimit fl))
      → has_prefix path a.prefix ≡ false
      → Best path l o
      → Best path (a ∷ l) o
  Best-cons path a l none misses best = λ m mem fits.
      Or.elim ⊥_prop (mem-cons.0 mem) (λ e. misfit path a m e misses fits) (λ r. best m r fits)
  Best-cons path a l (some b) misses (mem_b, fits_b, highest) = (
    mem-cons_of_mem a mem_b,
    fits_b,
    λ m mem fits.
        Or.elim le_prop (mem-cons.0 mem) (λ e. absurd (misfit path a m e misses fits))
          (λ r. highest m r fits),
  )

  static_limit-Best :
      (path : Text) (l : List (PathLimit fl)) → Descending l → Best path l (static_limit fl path l)
  unfolding static_limit
  static_limit-Best path [] d = λ m mem _. absurd (not-mem-nil mem)
  static_limit-Best path (a ∷ l) d =
      let rest = static_limit-Best path l d.1 in
      elim (Bool-cases (has_prefix path a.prefix)) [
        | inl fits ↦ rw fits (
          mem-cons_self,
          fits,
          λ m mem _.
              Or.elim le_prop (mem-cons.0 mem) (λ e. rw e (omega arith))
                (λ r. Above→le a l m d.0 r),
        )
        | inr misses ↦ rw misses (Best-cons path a l (static_limit fl path l) misses rest)
      ]

  Best-perm :
      (path : Text) (l l' : List (PathLimit fl)) (o : Option (PathLimit fl))
      → Perm l l'
      → Best path l o
      → Best path l' o
  Best-perm path l l' none p best = λ m mem fits. best m ((Perm.mem_iff p).1 mem) fits
  Best-perm path l l' (some b) p (mem_b, fits_b, highest) =
      ((Perm.mem_iff p).0 mem_b, fits_b, λ m mem fits. highest m ((Perm.mem_iff p).1 mem) fits)

module _ (fl : Float64) (sort_slice : SortSlice fl) where
  -- With a configuration that `Validate` has accepted, a path gets a limit with the highest priority of
  -- all path limits of the configuration whose prefix it has, in whatever order they were given, and
  -- gets none only if it has the prefix of none; sort.Slice is taken to sort.
  pub static_limit-highest :
      (c : Config fl) (path : Text)
      → Sorts fl sort_slice
      → (validate fl sort_slice c).1 ≡ none
      → Best fl path c.path_limits (static_limit fl path (validate fl sort_slice c).0.path_limits)
  unfolding by_priority memory_defaults other_defaults
  static_limit-highest c path sorts h =
      let (passes, b) = accepts→passes fl sort_slice c h in
      rw (validate-passes fl sort_slice c passes b) (
        Best-perm fl path (sort_slice (higher fl) c.path_limits) c.path_limits _
          (sorts.perm c.path_limits)
          (static_limit-Best fl path (sort_slice (higher fl) c.path_limits)
            (sorts.descending c.path_limits)))
