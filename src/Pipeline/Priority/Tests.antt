-- ===== src/Pipeline/Priority/Tests.antt =====
-- A sort that meets what is asked of sort.Slice, and the choice of a path limit with it.
use open_source.Common.{
  ◌≡◌, refl, Bool, false, List, [], ◌∷◌, arith, Text, codes, Bool-cases, inl, inr, if◌then◌else◌,
}
use open_source.Common.Int.{ℤ, pos}
use open_source.Common.Float.{Float64, whole}
use mathlib.Core.List.{Perm}
use mathlib.Core.List.Perm
use open_source.Configuration.Settings.{Config, PathLimit}
use open_source.Configuration.Defaults.{default_config}
use open_source.Configuration.Validate.{SortSlice, validate}
use open_source.Pipeline.Limits.{static_limit}
use open_source.Pipeline.Priority.{Above, Descending, higher, Sorts, Best, static_limit-highest}

module _ (fl : Float64) where
  insert_limit :
      (PathLimit fl → PathLimit fl → Bool)
      → PathLimit fl
      → List (PathLimit fl)
      → List (PathLimit fl)
  insert_limit less a [] = a ∷ []
  insert_limit less a (b ∷ l) =
      let rest = insert_limit less a l in if less a b then a ∷ b ∷ l else b ∷ rest

  insertion_sort : SortSlice fl
  unfolding insert_limit
  insertion_sort less [] = []
  insertion_sort less (a ∷ l) = insert_limit less a (insertion_sort less l)

  insert_limit-perm :
      (less : PathLimit fl → PathLimit fl → Bool) (a : PathLimit fl) (l : List (PathLimit fl))
      → Perm (insert_limit less a l) (a ∷ l)
  unfolding insert_limit
  insert_limit-perm less a [] = Perm.refl (a ∷ [])
  insert_limit-perm less a (b ∷ l) = elim (Bool-cases (less a b)) [
    | inl e ↦ rw e (Perm.refl (a ∷ b ∷ l))
    | inr e ↦ rw e (Perm.trans (Perm.cons b (insert_limit-perm less a l)) (Perm.swap a b l))
  ]

  Above-trans :
      (a b : PathLimit fl) (l : List (PathLimit fl))
      → higher fl b a ≡ false
      → Above fl b l
      → Above fl a l
  Above-trans a b [] h k = tt
  Above-trans a b (c ∷ l) h k = (ground (arith, h, k.0), Above-trans a b l h k.1)

  insert_limit-Above :
      (c a : PathLimit fl) (l : List (PathLimit fl))
      → higher fl a c ≡ false
      → Above fl c l
      → Above fl c (insert_limit (higher fl) a l)
  unfolding insert_limit
  insert_limit-Above c a [] h k = (h, tt)
  insert_limit-Above c a (b ∷ l) h k = elim (Bool-cases (higher fl a b)) [
    | inl e ↦ rw e (h, k)
    | inr e ↦ rw e (k.0, insert_limit-Above c a l h k.1)
  ]

  insert_limit-Descending :
      (a : PathLimit fl) (l : List (PathLimit fl))
      → Descending fl l
      → Descending fl (insert_limit (higher fl) a l)
  unfolding insert_limit
  insert_limit-Descending a [] d = (tt, tt)
  insert_limit-Descending a (b ∷ l) d = elim (Bool-cases (higher fl a b)) [
    | inl e ↦
        let below : higher fl b a ≡ false = ground (arith, e) in
        rw e ((below, Above-trans a b l below d.0), d)
    | inr e ↦ rw e (insert_limit-Above b a l e d.0, insert_limit-Descending a l d.1)
  ]

  insertion_sort-perm :
      (less : PathLimit fl → PathLimit fl → Bool) (l : List (PathLimit fl))
      → Perm (insertion_sort less l) l
  unfolding insertion_sort
  insertion_sort-perm less [] = Perm.refl []
  insertion_sort-perm less (a ∷ l) =
      Perm.trans (insert_limit-perm less a (insertion_sort less l))
        (Perm.cons a (insertion_sort-perm less l))

  insertion_sort-Descending :
      (l : List (PathLimit fl)) → Descending fl (insertion_sort (higher fl) l)
  unfolding insertion_sort
  insertion_sort-Descending [] = tt
  insertion_sort-Descending (a ∷ l) =
      insert_limit-Descending a (insertion_sort (higher fl) l) (insertion_sort-Descending l)

  insertion_sort-Sorts : Sorts fl insertion_sort
  insertion_sort-Sorts = record {
    perm = insertion_sort-perm (higher fl);
    descending = insertion_sort-Descending;
  }

abbrev limit_of : Text → ℤ → PathLimit whole
limit_of prefix priority = record {
  prefix = prefix;
  config = record { requests_per_second = pos 1; burst_size = pos 1; window_size = pos 0 };
  priority = priority;
}

-- Two limits for the paths under /api/v1, the better one last.
abbrev two_limits : Config whole
two_limits = record (default_config whole) {
  path_limits = limit_of (codes "/api") (pos 1) ∷ limit_of (codes "/api/v1") (pos 2) ∷ [];
}

static_limit-highest_example : Best whole (codes "/api/v1/users") two_limits.path_limits (
    static_limit whole
      (codes "/api/v1/users")
      (validate whole (insertion_sort whole) two_limits).0.path_limits)
unfolding validate
static_limit-highest_example =
    static_limit-highest whole (insertion_sort whole) two_limits (codes "/api/v1/users")
      (insertion_sort-Sorts whole) refl
