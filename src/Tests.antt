-- ===== src/Tests.antt =====
-- Values that the witnesses share: concrete instances of what the model takes as parameters.
mod Caching
mod Pooling
mod Serving
mod Threading
mod Measuring
mod Piping
mod Flowing
mod Zoning
mod Starting
mod Crowding
mod Logging
use native.Mathlib.Omega.{arith}
use mathlib.Core.List.{Perm}
use mathlib.Core.List.Perm
use funkyd.Base.{
  ℕ, zero, suc, ◌+◌, ◌*◌, ◌/◌, ◌%◌, ◌^◌, ◌≤◌, ◌<◌, ◌≡◌, refl, Bool, true, false, Option, none, some,
  List, [], ◌∷◌, ◌==◌, ltb, All, All-map, if◌then◌else◌, Bool-cases, inl, inr,
}
use funkyd.Base.Int.{ℤ, pos, negsuc}
use funkyd.Base.Text.{Text}
use funkyd.Base.Time.{Time, second}
use funkyd.Base.Floats.{Floats}
use funkyd.Cache.Freshness.{IsExact}
use funkyd.Upstream.{Upstream}
use funkyd.ConnPool.{SortSlice, lighter}
use funkyd.ConnPool.Selection.{Ordered}
use funkyd.ConnPool.Sorting.{IsSort}

-- uint32(d.Seconds()), for durations that are not negative.
abbrev pub seconds : ℤ → ℕ
seconds (pos d) = d / second % 2 ^ 32
seconds (negsuc d) = 0

pub seconds-IsExact : IsExact seconds
seconds-IsExact d h = omega arith

-- Weights in thousandths.
pub mills_transitive : (a b c : ℕ) → ltb b a ≡ false → ltb c b ≡ false → ltb c a ≡ false
mills_transitive a b c p q = ground arith

pub mills_irreflexive : (a : ℕ) → ltb a a ≡ false
mills_irreflexive a = ground arith

abbrev pub mills : Floats ℕ
mills = record {
  zero = 0;
  quot = λ a b. a * 1000 / b;
  ltb = ltb;
  eqb = ◌==◌;
  eqb_iff = funkyd.Base.==_iff;
  irreflexive = mills_irreflexive;
  transitive = mills_transitive;
}

module _ {A : Type 0} (less : A → A → Bool) where
  unfoldable pub insert_sorted : A → List A → List A
  insert_sorted x [] = x ∷ []
  insert_sorted x (y ∷ ys) = if less y x then y ∷ insert_sorted x ys else x ∷ y ∷ ys

  unfoldable pub insertion_sort : List A → List A
  unfolding insert_sorted
  insertion_sort [] = []
  insertion_sort (x ∷ xs) = insert_sorted x (insertion_sort xs)

  insert_sorted-perm : (x : A) (ys : List A) → Perm (insert_sorted x ys) (x ∷ ys)
  unfolding insert_sorted
  insert_sorted-perm x [] = Perm.refl (x ∷ [])
  insert_sorted-perm x (y ∷ ys) = elim (Bool-cases (less y x)) [
    | inl below ↦ rw below (Perm.trans (Perm.cons y (insert_sorted-perm x ys)) (Perm.swap x y ys))
    | inr stays ↦ rw stays (Perm.refl (x ∷ y ∷ ys))
  ]

  insertion_sort-perm : (xs : List A) → Perm (insertion_sort xs) xs
  unfolding insertion_sort
  insertion_sort-perm [] = Perm.refl []
  insertion_sort-perm (x ∷ xs) =
      Perm.trans (insert_sorted-perm x (insertion_sort xs)) (Perm.cons x (insertion_sort-perm xs))

  All-insert_sorted :
      (P : A → Type 0) (x : A) (ys : List A) → P x → All P ys → All P (insert_sorted x ys)
  unfolding insert_sorted
  All-insert_sorted P x [] px h = (px, tt)
  All-insert_sorted P x (y ∷ ys) px h = elim (Bool-cases (less y x)) [
    | inl below ↦ rw below (h.0, All-insert_sorted P x ys px h.1)
    | inr stays ↦ rw stays (px, h)
  ]

insert_sorted-Ordered :
    (x : Upstream ℕ) (us : List (Upstream ℕ))
    → Ordered mills us
    → Ordered mills (insert_sorted (lighter mills) x us)
unfolding insert_sorted
insert_sorted-Ordered x [] o = (tt, tt)
insert_sorted-Ordered x (y ∷ us) o = elim (Bool-cases (lighter mills y x)) [
  | inl below ↦ rw below (
    All-insert_sorted (lighter mills) (λ v. lighter mills v y ≡ false) x us (ground arith) o.0,
    insert_sorted-Ordered x us o.1,
  )
  | inr stays ↦
      rw stays
        ((stays, All-map (λ v h. mills_transitive x.weight y.weight v.weight stays h) us o.0), o)
]

insertion_sort-Ordered :
    (us : List (Upstream ℕ)) → Ordered mills (insertion_sort (lighter mills) us)
unfolding insertion_sort
insertion_sort-Ordered [] = tt
insertion_sort-Ordered (u ∷ us) = insert_sorted-Ordered u _ (insertion_sort-Ordered us)

pub insertion_sort-IsSort : IsSort mills insertion_sort
insertion_sort-IsSort = record {
  permutes = insertion_sort-perm (lighter mills);
  sorts = insertion_sort-Ordered;
}
