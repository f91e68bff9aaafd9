-- ===== src/Registry/Matching.antt =====
-- What the patterns of middleware/storage/file/registry.go match, what its pages hold, and the reload.
use open_source.Common.{
  ℕ, zero, suc, ◌≤◌, ◌≡◌, refl, ap, ◌∙◌, inl, inr, Bool, true, List, [], ◌∷◌, ◌++◌, arith, ◌==◌,
  ltb, if◌then◌else◌, ◌&&◌, not, length, drop, take, Bool-cases, Text, text_eq, has_prefix,
  strip_prefix,
}
use open_source.Common.Int.{pos, ltb_ℤ}
use open_source.Common.Float.{Float64}
use open_source.Registry.Api.{ApiSummary, ApiFilter}
use open_source.Registry.Store.{blocked_forever, Faults, Json, FileRegistry, load, reload_rules}
use open_source.Registry.Rules.{any_run, one_char, glob, paginate, summaries, list_apis}

-- No star and no question mark.
unfoldable pub plain : Text → Bool
plain [] = true
plain (c ∷ cs) = not (c == b'*') && (not (c == b'?') && plain cs)

-- No newline.
unfoldable pub one_line : Text → Bool
one_line [] = true
one_line (c ∷ cs) = not (c == 10) && one_line cs

-- A pattern without wildcards matches itself and nothing else.
glob-plain : (p path : Text) → plain p ≡ true → glob p path ≡ text_eq p path
unfolding glob any_run one_char plain text_eq
glob-plain [] [] h = refl
glob-plain [] (x ∷ path) h = refl
glob-plain (c ∷ p) [] h = ground arith
glob-plain (c ∷ p) (x ∷ path) h = ground (arith, glob-plain p path)

any_run-end : (path : Text) → any_run (glob []) path ≡ one_line path
unfolding any_run glob one_line
any_run-end [] = refl
any_run-end (x ∷ path) = ground (arith, any_run-end path)

-- A pattern without other wildcards and with a star at its end matches exactly the paths that begin
-- with what stands before the star and go on without a newline.
glob-star :
    (p path : Text)
    → plain p ≡ true
    → glob (p ++ b'*' ∷ []) path ≡ (has_prefix path p && one_line (strip_prefix path p))
unfolding glob one_char plain has_prefix strip_prefix
glob-star [] path h = any_run-end path
glob-star (c ∷ p) [] h = ground arith
glob-star (c ∷ p) (x ∷ path) h = ground (arith, glob-star p path)

module _ {ℓ} {A : Type ℓ} where
  all_taken : (n : ℕ) (xs : List A) → length xs ≤ n → take n xs ≡ xs
  all_taken zero [] h = refl
  all_taken zero (x ∷ xs) h = absurd (omega arith)
  all_taken (suc n) [] h = refl
  all_taken (suc n) (x ∷ xs) h = rw (all_taken n xs (omega arith)) refl

module _ (fl : Float64) where
  -- The part of the slice from the offset on.
  abbrev from_offset : ℕ → List (ApiSummary fl) → List (ApiSummary fl)
  from_offset offset found = if ltb offset (length found) then drop offset found else found

  from_offset-guarded :
      (offset : ℕ) (found : List (ApiSummary fl))
      → (if ltb_ℤ (pos 0) (pos offset) && ltb_ℤ (pos offset) (pos (length found))
          then drop offset found
          else found)
        ≡ from_offset offset found
  from_offset-guarded zero found = ground arith
  from_offset-guarded (suc n) found = ground arith

  limited :
      (limit : ℕ) (page : List (ApiSummary fl))
      → (if ltb_ℤ (pos 0) (pos (suc limit)) && ltb_ℤ (pos (suc limit)) (pos (length page))
          then take (suc limit) page
          else page)
        ≡ take (suc limit) page
  limited limit page = elim (Bool-cases (ltb (suc limit) (length page))) [
    | inl longer ↦ ground arith
    | inr fits ↦ ground (arith, all_taken (suc limit) page)
  ]

  paginate-page :
      (offset limit : ℕ) (found : List (ApiSummary fl))
      → paginate fl (pos offset) (pos (suc limit)) found
        ≡ take (suc limit) (from_offset offset found)
  unfolding paginate
  paginate-page offset limit found =
      rw (from_offset-guarded offset found, paginate) (limited limit (from_offset offset found))

module _ (fl : Float64) (json : Json fl) where
  -- With an offset and a limit that are not negative, and a limit of 1 or more, `ListAPIs` returns the
  -- page of that length at the offset if the offset is below the number of the APIs that pass the
  -- filter. If it is not, it returns the first page and not an empty one.
  list_apis-page :
      (offset limit : ℕ) (filter : ApiFilter fl) (f : FileRegistry fl json)
      → filter.offset ≡ pos offset
      → filter.limit ≡ pos (suc limit)
      → let found = summaries fl filter f.apis in
        list_apis fl filter f
        ≡ take (suc limit) (if ltb offset (length found) then drop offset found else found)
  unfolding list_apis
  list_apis-page offset limit filter f o l =
      let found = summaries fl filter f.apis in
      ap (λ n. paginate fl n filter.limit found) o
      ∙ ap (λ n. paginate fl (pos offset) n found) l
      ∙ paginate-page fl offset limit found

  -- `ReloadRules` never returns: it takes the lock and calls `Load`, which waits for the same lock.
  pub reload_rules-blocks :
      (faults : Faults) (f : FileRegistry fl json)
      → (reload_rules fl json faults f).1 ≡ blocked_forever
  unfolding reload_rules load
  reload_rules-blocks faults f = ground arith
