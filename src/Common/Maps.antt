-- ===== src/Common/Maps.antt =====
-- Go's maps with text keys: an association list in some order of iteration, one pair to a key.
use Prim.Native.Nat.{suc}
use mathlib.Core.Path.{◌≡◌, refl}
use mathlib.Core.List.{List, [], ◌∷◌}
use mathlib.Core.Option.{Option, none, some}
use native.Mathlib.Omega.{arith}
use open_source.Common.Tests.{if◌then◌else◌, is_some}
use open_source.Common.Strings.{Text, text_eq, text_eq_iff, text_eq_refl}
use open_source.Common.Lists.{length}

module _ {ℓ} {V : Type ℓ} where
  -- `v, ok := m[k]`
  unfoldable pub lookup : Text → List (Text × V) → Option V
  lookup k [] = none
  lookup k ((j, v) ∷ m) = if text_eq j k then some v else lookup k m

  -- `m[k] = v`
  unfoldable pub insert : Text → V → List (Text × V) → List (Text × V)
  insert k v [] = (k, v) ∷ []
  insert k v ((j, w) ∷ m) = if text_eq j k then (k, v) ∷ m else (j, w) ∷ insert k v m

  -- `delete(m, k)`
  unfoldable pub delete : Text → List (Text × V) → List (Text × V)
  delete k [] = []
  delete k ((j, w) ∷ m) = if text_eq j k then m else (j, w) ∷ delete k m

  -- No key stands twice.
  abbrev pub Keyed : List (Text × V) → Type ℓ
  Keyed [] = Unit {ℓ}
  Keyed ((k, v) ∷ m) = (lookup k m ≡ none) × Keyed m

module _ {ℓ} {V : Type ℓ} where
  pub lookup-insert :
      (k j : Text) (v : V) (m : List (Text × V))
      → lookup j (insert k v m) ≡ (if text_eq k j then some v else lookup j m)
  unfolding lookup insert
  lookup-insert k j v [] = refl
  lookup-insert k j v ((i, w) ∷ m) =
      ground (arith, text_eq_iff k j, text_eq_iff i k, text_eq_iff i j, lookup-insert k j v m)

  pub lookup-insert_self :
      (k : Text) (v : V) (m : List (Text × V)) → lookup k (insert k v m) ≡ some v
  lookup-insert_self k v m = rw (lookup-insert, text_eq_refl k)

  pub lookup-delete :
      (k j : Text) (m : List (Text × V))
      → Keyed m
      → lookup j (delete k m) ≡ (if text_eq k j then none else lookup j m)
  unfolding lookup delete
  lookup-delete k j [] h = ground arith
  lookup-delete k j ((i, w) ∷ m) h =
      ground (arith, text_eq_iff k j, text_eq_iff i k, text_eq_iff i j, lookup-delete k j m)

  pub insert-Keyed : (k : Text) (v : V) (m : List (Text × V)) → Keyed m → Keyed (insert k v m)
  unfolding lookup insert
  insert-Keyed k v [] h = (refl, tt)
  insert-Keyed k v ((i, w) ∷ m) h =
      ground (arith, text_eq_iff i k, text_eq_iff k i, lookup-insert k i v m, insert-Keyed k v m)

  pub delete-Keyed : (k : Text) (m : List (Text × V)) → Keyed m → Keyed (delete k m)
  unfolding lookup delete
  delete-Keyed k [] h = tt
  delete-Keyed k ((i, w) ∷ m) h =
      ground (arith, text_eq_iff k i, lookup-delete k i m, delete-Keyed k m)

  pub length-insert :
      (k : Text) (v : V) (m : List (Text × V))
      → length (insert k v m) ≡ (if is_some (lookup k m) then length m else suc (length m))
  unfolding lookup insert
  length-insert k v [] = refl
  length-insert k v ((i, w) ∷ m) = ground (arith, length-insert k v m)

  pub length-delete :
      (k : Text) (m : List (Text × V))
      → (if is_some (lookup k m) then suc (length (delete k m)) else length (delete k m)) ≡ length m
  unfolding lookup delete
  length-delete k [] = refl
  length-delete k ((i, w) ∷ m) = ground (arith, length-delete k m)
