-- ===== src/ConnPool/Selection.antt =====
-- Which upstream getBestUpstream chooses, and the order that sortUpstreams keeps.
use mathlib.Core.Option.{some-injective}
use funkyd.Base.{
  ℕ, ◌+◌, ◌≡◌, refl, inl, inr, Bool, true, false, not, ◌&&◌, Option, none, some, List, [], ◌∷◌,
  arith, subst, All, All-map, Option-cases, Bool-cases, if◌then◌else◌,
}
use funkyd.Base.Text.{text_eq_refl}
use funkyd.Base.Time.{Time}
use funkyd.Base.Floats.{Floats}
use funkyd.Base.Map.{Map, lookup, is_some}
use funkyd.Upstream.{Upstream, get_address, is_cooling, no_upstream, is_no_upstream}
use funkyd.ConnEntry.{ConnEntry}
use funkyd.ConnPool.{ConnPool, early, candidate, lighter, best_loop, get_best_upstream}

abbrev pub find {ℓ} : {A : Type ℓ} → (A → Bool) → List A → Option A
find f [] = none
find f (x ∷ xs) = if f x then some x else find f xs

abbrev pub head? {ℓ} : {A : Type ℓ} → List A → Option A
head? [] = none
head? (x ∷ xs) = some x

abbrev pub or_else {ℓ} : {A : Type ℓ} → Option A → Option A → Option A
or_else none b = b
or_else (some a) b = some a

abbrev nonempty {ℓ} : {A : Type ℓ} → Option (List A) → Bool
nonempty none = false
nonempty (some []) = false
nonempty (some (x ∷ xs)) = true

module _ {F : Type 0} (fl : Floats F) (t : Time) where
  -- Not cooling, and with cached connections.
  abbrev pub has_conns : Map (List (ConnEntry F)) → Upstream F → Bool
  has_conns cache u = not (is_cooling t u) && nonempty (lookup (get_address u) cache)

  -- Not cooling, and in the cache, with connections or without.
  abbrev pub is_open : Map (List (ConnEntry F)) → Upstream F → Bool
  is_open cache u = not (is_cooling t u) && is_some (lookup (get_address u) cache)

  best_of : Upstream F → Option (Upstream F) → Upstream F
  best_of best none = best
  best_of best (some u) = u

  -- The loop once it has a candidate: that one stays.
  best_loop-kept :
      (i : ℕ) (cache : Map (List (ConnEntry F))) (best : Upstream F) (us : List (Upstream F))
      → is_no_upstream fl best ≡ false
      → best_loop fl (λ _. t) i cache best us
        ≡ elim (find (has_conns cache) us) [ none ↦ candidate best | some u ↦ early u ]
  unfolding best_loop
  best_loop-kept i cache best [] b = refl
  best_loop-kept i cache best (u ∷ us) b = ground (arith, best_loop-kept (i + 1) cache best us b)

  -- The loop before it has a candidate, over upstreams none of which is Upstream{}.
  best_loop-open :
      (i : ℕ) (cache : Map (List (ConnEntry F))) (best : Upstream F) (us : List (Upstream F))
      → is_no_upstream fl best ≡ true
      → All (λ u. is_no_upstream fl u ≡ false) us
      → best_loop fl (λ _. t) i cache best us ≡ elim (find (has_conns cache) us) [
        | none ↦ candidate (best_of best (find (is_open cache) us))
        | some u ↦ early u
      ]
  unfolding best_loop best_of
  best_loop-open i cache best [] b n = refl
  best_loop-open i cache best (u ∷ us) b n =
      ground
        (arith, best_loop-open (i + 1) cache best us b n.1, best_loop-kept (i + 1) cache u us n.0)

pub is_no_upstream-no_upstream :
    {F : Type 0} (fl : Floats F) → is_no_upstream fl (no_upstream fl) ≡ true
unfolding is_no_upstream no_upstream
is_no_upstream-no_upstream fl = ground (arith, fl.eqb_iff fl.zero fl.zero, text_eq_refl [])

find-All {ℓ κ} :
    {A : Type ℓ} (P : A → Type κ) (f : A → Bool) (xs : List A) (x : A)
    → All P xs
    → find f xs ≡ some x
    → P x × (f x ≡ true)
find-All P f [] x a e = cc
find-All P f (y ∷ ys) x a e = elim (Bool-cases (f y)) [
  | inl hit ↦
      let same = some-injective _ _ (rw hit at e) in subst (λ z. P z × (f z ≡ true)) same (a.0, hit)
  | inr miss ↦ find-All P f ys x a.1 (rw miss at e)
]

-- At a standing clock, where no upstream is Upstream{}, getBestUpstream returns the first upstream
-- that is not cooling and has cached connections; without one, the first that is not cooling and
-- has an entry in the cache; without one, the first of the list, cooling or not; and nothing only
-- if the list is empty.
pub get_best_upstream-find :
    {F : Type 0} (fl : Floats F) (t : Time) (p : ConnPool F)
    → All (λ u. is_no_upstream fl u ≡ false) p.upstreams
    → get_best_upstream fl (λ _. t) p
      ≡ or_else
          (find (has_conns fl t p.cache) p.upstreams)
          (or_else (find (is_open fl t p.cache) p.upstreams) (head? p.upstreams))
unfolding get_best_upstream best_of
get_best_upstream-find fl t p n =
    let nothing = is_no_upstream-no_upstream fl in
    let loop = best_loop-open fl t 0 p.cache (no_upstream fl) p.upstreams nothing n in
    elim (Option-cases (find (is_open fl t p.cache) p.upstreams)) [
      | inl missing ↦ ground arith
      | inr (u, found) ↦
          let real = find-All _ (is_open fl t p.cache) p.upstreams u n found in ground arith
    ]

module _ {F : Type 0} (fl : Floats F) where
  -- Lighter upstreams stand first.
  abbrev pub Ordered : List (Upstream F) → Type 0
  Ordered [] = Unit {0}
  Ordered (u ∷ us) = All (λ v. lighter fl v u ≡ false) us × Ordered us

  find-lightest :
      (f : Upstream F → Bool) (us : List (Upstream F)) (u : Upstream F)
      → Ordered us
      → find f us ≡ some u
      → All (λ v. f v ≡ true → lighter fl v u ≡ false) us
  find-lightest f [] u o e = tt
  find-lightest f (w ∷ us) u o e = elim (Bool-cases (f w)) [
    | inl hit ↦
        let same = some-injective _ _ (rw hit at e) in
        subst (λ z. All (λ v. f v ≡ true → lighter fl v z ≡ false) (w ∷ us)) same
          (λ _. fl.irreflexive w.weight, All-map (λ v l _. l) us o.0)
    | inr miss ↦ (λ h. cc, find-lightest f us u o.1 (rw miss at e))
  ]

-- At a standing clock, where no upstream is Upstream{}, the list is sorted by weight, and some
-- upstream that is not cooling has cached connections: the upstream that getBestUpstream returns is
-- not cooling and has cached connections, and no other such upstream is lighter.
pub get_best_upstream-lightest :
    {F : Type 0} (fl : Floats F) (t : Time) (p : ConnPool F) (u v : Upstream F)
    → All (λ w. is_no_upstream fl w ≡ false) p.upstreams
    → Ordered fl p.upstreams
    → find (has_conns fl t p.cache) p.upstreams ≡ some v
    → get_best_upstream fl (λ _. t) p ≡ some u
    → (has_conns fl t p.cache u ≡ true)
      × All (λ w. has_conns fl t p.cache w ≡ true → lighter fl w u ≡ false) p.upstreams
get_best_upstream-lightest fl t p u v n o some_open e =
    let found : find (has_conns fl t p.cache) p.upstreams ≡ some u =
      ground (arith, get_best_upstream-find fl t p n) in
    (
      (find-All (λ w. is_no_upstream fl w ≡ false) (has_conns fl t p.cache) p.upstreams u n
          found).1,
      find-lightest fl (has_conns fl t p.cache) p.upstreams u o found,
    )
