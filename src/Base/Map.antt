-- ===== src/Base/Map.antt =====
-- A Go map with text keys, as an association list with one entry for each key. `range` visits the
-- entries in the order of the list; nothing depends on that order.
use Prim.Native.Nat.{◌+◌}
use mathlib.Core.Path.{◌≡◌, refl}
use mathlib.Core.Logic.{◌≢◌, inl, inr}
use mathlib.Core.Bool.{Bool, true, false}
use mathlib.Core.Option.{Option, none, some}
use mathlib.Core.List.{List, [], ◌∷◌}
use native.Mathlib.Omega.{arith}
use funkyd.Base.Tests.{if◌then◌else◌, Bool-cases}
use funkyd.Base.Lists.{length, All}
use funkyd.Base.Text.{Text, text_eq, text_eq_iff, text_eq_refl}

abbrev pub Map {ℓ} : Type ℓ → Type ℓ
Map V = List (Text × V)

module _ {ℓ} {V : Type ℓ} where
  abbrev pub is_some : Option V → Bool
  is_some none = false
  is_some (some v) = true

  -- v, ok := m[k]
  unfoldable pub lookup : Text → Map V → Option V
  lookup k [] = none
  lookup k ((j, v) ∷ m) = if text_eq j k then some v else lookup k m

  -- m[k] = v
  unfoldable pub insert : Text → V → Map V → Map V
  insert k v [] = (k, v) ∷ []
  insert k v ((j, w) ∷ m) = if text_eq j k then (k, v) ∷ m else (j, w) ∷ insert k v m

  -- delete(m, k)
  unfoldable pub delete : Text → Map V → Map V
  delete k [] = []
  delete k ((j, w) ∷ m) = if text_eq j k then delete k m else (j, w) ∷ delete k m

  -- for _, v := range m
  unfoldable pub values : Map V → List V
  values [] = []
  values ((j, w) ∷ m) = w ∷ values m

  pub lookup-insert :
      (k j : Text) (v : V) (m : Map V)
      → lookup j (insert k v m) ≡ (if text_eq k j then some v else lookup j m)
  unfolding lookup insert
  lookup-insert k j v [] = refl
  lookup-insert k j v ((i, w) ∷ m) =
      ground (arith, text_eq_iff k j, text_eq_iff i k, text_eq_iff i j, lookup-insert k j v m)

  pub lookup-insert_self : (k : Text) (v : V) (m : Map V) → lookup k (insert k v m) ≡ some v
  lookup-insert_self k v m = ground (arith, lookup-insert k k v m, text_eq_refl k)

  pub lookup-delete :
      (k j : Text) (m : Map V) → lookup j (delete k m) ≡ (if text_eq k j then none else lookup j m)
  unfolding lookup delete
  lookup-delete k j [] = ground arith
  lookup-delete k j ((i, w) ∷ m) =
      ground (arith, text_eq_iff k j, text_eq_iff i k, text_eq_iff i j, lookup-delete k j m)

  pub lookup-delete_self : (k : Text) (m : Map V) → lookup k (delete k m) ≡ none
  lookup-delete_self k m = ground (arith, lookup-delete k k m, text_eq_refl k)

  -- A key stands at most once: what the list must satisfy to be a map.
  abbrev pub Fresh : Text → Map V → Type 0
  Fresh k = All (λ e. e.0 ≢ k)

  abbrev pub IsMap : Map V → Type 0
  IsMap [] = Unit
  IsMap ((k, v) ∷ m) = Fresh k m × IsMap m

  Fresh-insert : (k j : Text) (v : V) (m : Map V) → k ≢ j → Fresh j m → Fresh j (insert k v m)
  unfolding insert
  Fresh-insert k j v [] h f = (h, tt)
  Fresh-insert k j v ((i, w) ∷ m) h f = ground (arith, Fresh-insert k j v m h f.1, text_eq_iff i k)

  pub insert-IsMap : (k : Text) (v : V) (m : Map V) → IsMap m → IsMap (insert k v m)
  unfolding insert
  insert-IsMap k v [] u = (tt, tt)
  insert-IsMap k v ((i, w) ∷ m) u = elim (Bool-cases (text_eq i k)) [
    | inl hit ↦ rw hit (rw ((text_eq_iff i k).0 hit) at u)
    | inr miss ↦
        rw miss (
          Fresh-insert k i v m (λ e. ground (arith, e, text_eq_iff i k)) u.0,
          insert-IsMap k v m u.1,
        )
  ]

  Fresh-delete : (k j : Text) (m : Map V) → Fresh j m → Fresh j (delete k m)
  unfolding delete
  Fresh-delete k j [] f = tt
  Fresh-delete k j ((i, w) ∷ m) f = ground (arith, Fresh-delete k j m f.1)

  pub delete-IsMap : (k : Text) (m : Map V) → IsMap m → IsMap (delete k m)
  unfolding delete
  delete-IsMap k [] u = tt
  delete-IsMap k ((i, w) ∷ m) u = ground (arith, delete-IsMap k m u.1, Fresh-delete k i m u.0)

  delete-Fresh : (k : Text) (m : Map V) → Fresh k m → delete k m ≡ m
  unfolding delete
  delete-Fresh k [] f = refl
  delete-Fresh k ((i, w) ∷ m) f = ground (arith, delete-Fresh k m f.1, text_eq_iff i k)

  lookup-Fresh : (k : Text) (m : Map V) → Fresh k m → lookup k m ≡ none
  unfolding lookup
  lookup-Fresh k [] f = refl
  lookup-Fresh k ((i, w) ∷ m) f = ground (arith, lookup-Fresh k m f.1, text_eq_iff i k)

  -- len(m), after a write and after a delete
  pub length-insert :
      (k : Text) (v : V) (m : Map V)
      → length (insert k v m) ≡ (if is_some (lookup k m) then length m else length m + 1)
  unfolding insert lookup
  length-insert k v [] = refl
  length-insert k v ((i, w) ∷ m) = ground (arith, length-insert k v m)

  pub length-delete :
      (k : Text) (m : Map V)
      → IsMap m
      → length m ≡ (if is_some (lookup k m) then length (delete k m) + 1 else length (delete k m))
  unfolding delete lookup
  length-delete k [] u = refl
  length-delete k ((i, w) ∷ m) u = elim (Bool-cases (text_eq i k)) [
    | inl hit ↦
        let f : Fresh k m = rw ((text_eq_iff i k).0 hit) at u.0 in
        ground (arith, delete-Fresh k m f)
    | inr miss ↦ ground (arith, length-delete k m u.1)
  ]
