-- ===== src/ConnPool/Choice.antt =====
-- The choice of an upstream, and the connection that Get returns, in a sound pool.
use mathlib.Core.Option.{some-injective}
use funkyd.Base.{
  ℕ, ◌+◌, ◌≡◌, refl, inl, inr, Bool, true, false, not, Option, none, some, List, [], ◌∷◌, arith,
  All, Bool-cases, if_ind, ◌⊎◌, sym, List-cases, if◌then◌else◌, ◌∙◌,
}
use funkyd.Base.Time.{Time}
use funkyd.Base.Floats.{Floats}
use funkyd.Base.Map.{Map, lookup, insert}
use funkyd.Base.Perms.{All-perm}
use funkyd.Upstream.{Upstream, get_address, no_upstream, is_no_upstream, is_cooling}
use funkyd.ConnEntry.{ConnEntry, no_conn_entry}
use funkyd.ConnPool.{
  ConnPool, Got, Pick, early, candidate, get, best_loop, get_best_upstream, cached,
}
use funkyd.ConnPool.Ownership.{held-get}
use funkyd.ConnPool.Selection.{is_no_upstream-no_upstream}
use funkyd.ConnPool.Soundness.{Named, IsSound, has_name, has_conn, is_no_upstream-has_name}

module _ {F : Type 0} (fl : Floats F) where
  -- The loop's result is an upstream with a name, or is still Upstream{}.
  abbrev Chosen : Pick F → Type 0
  Chosen (early u) = has_name u ≡ true
  Chosen (candidate u) = (is_no_upstream fl u ≡ true) ⊎ (has_name u ≡ true)

  Chosen-choice :
      (o : Option (List (ConnEntry F))) (cooling : Bool) (skip keep : Pick F) (u : Upstream F)
      → Chosen skip
      → Chosen keep
      → has_name u ≡ true
      → Chosen (elim o [
        | none ↦ skip
        | some conns ↦ if cooling then skip else elim conns [ [] ↦ keep | c ∷ cs ↦ early u ]
      ])
  Chosen-choice none b skip keep u s k n = s
  Chosen-choice (some conns) true skip keep u s k n = s
  Chosen-choice (some []) false skip keep u s k n = k
  Chosen-choice (some (c ∷ cs)) false skip keep u s k n = n

  best_loop-Chosen :
      (now : ℕ → Time) (i : ℕ) (cache : Map (List (ConnEntry F))) (best : Upstream F)
      (us : List (Upstream F))
      → (is_no_upstream fl best ≡ true) ⊎ (has_name best ≡ true)
      → All (λ u. has_name u ≡ true) us
      → Chosen (best_loop fl now i cache best us)
  unfolding best_loop
  best_loop-Chosen now i cache best [] b n = b
  best_loop-Chosen now i cache best (u ∷ us) b n =
      let skip = best_loop-Chosen now (i + 1) cache best us b n.1 in
      let kept : (is_no_upstream fl (if is_no_upstream fl best then u else best) ≡ true)
          ⊎ (has_name (if is_no_upstream fl best then u else best) ≡ true) =
        if_ind (λ v. (is_no_upstream fl v ≡ true) ⊎ (has_name v ≡ true)) (is_no_upstream fl best)
          (inr n.0) b in
      let keep =
        best_loop-Chosen now (i + 1) cache (if is_no_upstream fl best then u else best) us kept
          n.1 in
      Chosen-choice (lookup (get_address u) cache) (is_cooling (now i) u) _ _ u skip keep n.0

  -- In a sound pool there is a best upstream, and it has a name.
  get_best_upstream-Named :
      (now : ℕ → Time) (p : ConnPool F)
      → Named p.upstreams
      → (u : Upstream F) × (get_best_upstream fl now p ≡ some u) × (has_name u ≡ true)
  unfolding get_best_upstream
  get_best_upstream-Named now p n =
      go (best_loop fl now 0 p.cache (no_upstream fl) p.upstreams)
        (best_loop-Chosen now 0 p.cache (no_upstream fl) p.upstreams
          (inl (is_no_upstream-no_upstream fl)) n.0)
        p.upstreams n
    where
      go :
          (pick : Pick F)
          → Chosen pick
          → (us : List (Upstream F)) → Named us
          → (u : Upstream F) × (elim pick [
            | early u ↦ some u
            | candidate best ↦
                if not (is_no_upstream fl best)
                then some best
                else elim us [ [] ↦ none | u ∷ us ↦ some u ]
          ]
              ≡ some u)
            × (has_name u ≡ true)
      go (early u) c us m = (u, refl, c)
      go (candidate best) c [] m = cc
      go (candidate best) c (v ∷ vs) m = elim (Bool-cases (is_no_upstream fl best)) [
        | inl blank ↦ (v, rw blank refl, m.0.0)
        | inr real ↦ (best, rw real refl, ground arith)
      ]

  get_total :
      (now : ℕ → Time) (p : ConnPool F) (u : Upstream F)
      → get_best_upstream fl now p ≡ some u
      → (g : Got fl) × (get fl now p ≡ some g) × (g.pool.upstreams ≡ p.upstreams)
  unfolding get
  get_total now p u best = elim (List-cases (cached (get_address u) p)) [
    | inl none_cached ↦ (
      record { pool = p; ce = no_conn_entry fl; upstream = u },
      rw (best, none_cached, get) refl,
      refl,
    )
    | inr (ce, rest, some_cached) ↦ (
      record {
        pool = record p { cache = insert (get_address u) rest p.cache };
        ce = ce;
        upstream = no_upstream fl;
      },
      rw (best, some_cached, get) refl,
      refl,
    )
  ]

  -- Get returns; where it names an upstream that is not Upstream{}, this one is to be dialled, and
  -- else its entry has a connection.
  pub get-IsSound :
      (now : ℕ → Time) (p : ConnPool F)
      → IsSound p
      → (g : Got fl) × (get fl now p ≡ some g)
        × IsSound g.pool
        × ((is_no_upstream fl g.upstream ≡ false) ⊎ (has_conn g.ce ≡ true))
  get-IsSound now p s =
      let (u, best, name) = get_best_upstream-Named now p s.named in
      let (g, got, same) = get_total now p u best in
      elim (held-get fl now p g got) [
        | inl (moved, none_needed) ↦
            let moved_out = All-perm has_conn moved s.connected in
            (g, got, record { named = rw same s.named; connected = moved_out.1 }, inr moved_out.0)
        | inr (kept, _, chosen) ↦ (
          g,
          got,
          rw kept s,
          inl (
              is_no_upstream-has_name fl g.upstream
                (rw (← some-injective _ _ (sym best ∙ chosen)) name)),
        )
      ]
