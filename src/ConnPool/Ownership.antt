-- ===== src/ConnPool/Ownership.antt =====
-- Where the connections are: in the cache, with a goroutine that is to close them, or closed.
use mathlib.Core.List.{Perm, append_assoc, perm_middle}
use mathlib.Core.List.Perm
use mathlib.Core.Option.{some-injective}
use funkyd.Base.{
  ℕ, ◌≡◌, refl, sym, inl, inr, some, List, [], ◌∷◌, ◌++◌, arith, Bool-cases, Option-cases, Bool,
  or_nil, if_ind, ◌⊎◌, List-cases, subst,
}
use funkyd.Base.Perms.{append_left_comm}
use funkyd.Base.Text.{Text, text_eq}
use funkyd.Base.Time.{Time}
use funkyd.Base.Floats.{Floats}
use funkyd.Base.Map.{Map, lookup, insert, is_some}
use funkyd.Config.{Configuration}
use funkyd.Upstream.{Upstream, get_address, no_upstream}
use funkyd.ConnEntry.{ConnEntry, get_weight, address_of, no_conn_entry}
use funkyd.ConnPool.{
  ConnPool, Got, get_upstream_by_address, SortSlice, cached, purge_upstream,
  cool_and_purge_upstream, get_best_upstream, get, update_upstream, sort_upstreams, weight_upstream,
  add, close_connection,
}

module _ {F : Type 0} where
  -- All cached connections.
  abbrev pub flat : Map (List (ConnEntry F)) → List (ConnEntry F)
  flat [] = []
  flat ((k, conns) ∷ m) = conns ++ flat m

  abbrev cached_in : Text → Map (List (ConnEntry F)) → List (ConnEntry F)
  cached_in a m = or_nil (lookup a m)

  -- The entries that a write replaces come out, the new ones come in.
  flat-insert :
      (a : Text) (v : List (ConnEntry F)) (m : Map (List (ConnEntry F)))
      → Perm (cached_in a m ++ flat (insert a v m)) (v ++ flat m)
  unfolding lookup insert
  flat-insert a v [] = Perm.refl (v ++ [])
  flat-insert a v ((k, w) ∷ m) = elim (Bool-cases (text_eq k a)) [
    | inl hit ↦ rw (hit, lookup, or_nil) (append_left_comm w v (flat m))
    | inr miss ↦
        rw (miss, lookup, or_nil)
          (Perm.trans (append_left_comm (cached_in a m) w (flat (insert a v m)))
            (Perm.trans (Perm.append_left w (flat-insert a v m)) (append_left_comm w v (flat m))))
  ]

  flat-insert_append :
      (a : Text) (ce : ConnEntry F) (old : List (ConnEntry F)) (m : Map (List (ConnEntry F)))
      → cached_in a m ≡ old
      → Perm (flat (insert a (old ++ ce ∷ []) m)) (ce ∷ flat m)
  unfolding lookup insert
  flat-insert_append a ce old [] e = let empty : old ≡ [] = sym e in rw empty (Perm.refl (ce ∷ []))
  flat-insert_append a ce old ((k, w) ∷ m) e = elim (Bool-cases (text_eq k a)) [
    | inl hit ↦
        let same : w ≡ old = rw (hit, lookup, or_nil) at e in
        rw (hit, same) (rw (append_assoc old (ce ∷ []) (flat m)) (perm_middle old (flat m)))
    | inr miss ↦ rw miss (
        Perm.trans
          (Perm.append_left w (flat-insert_append a ce old m (rw (miss, lookup, or_nil) at e)))
          (perm_middle w (flat m)))
  ]

  flat-insert_rest :
      (a : Text) (ce : ConnEntry F) (rest : List (ConnEntry F)) (m : Map (List (ConnEntry F)))
      → cached_in a m ≡ ce ∷ rest
      → Perm (flat m) (ce ∷ flat (insert a rest m))
  unfolding lookup insert
  flat-insert_rest a ce rest [] e = cc
  flat-insert_rest a ce rest ((k, w) ∷ m) e = elim (Bool-cases (text_eq k a)) [
    | inl hit ↦
        let same : w ≡ ce ∷ rest = rw (hit, lookup, or_nil) at e in
        rw (hit, same) (Perm.refl (ce ∷ (rest ++ flat m)))
    | inr miss ↦ rw miss (
        Perm.trans
          (Perm.append_left w (flat-insert_rest a ce rest m (rw (miss, lookup, or_nil) at e)))
          (perm_middle w (flat (insert a rest m))))
  ]

  -- Every connection that the pool is answerable for.
  abbrev pub held : ConnPool F → List (ConnEntry F)
  held p = flat p.cache ++ (p.closing ++ p.closed)

  held-insert :
      (a : Text) (v : List (ConnEntry F)) (p : ConnPool F)
      → Perm (cached a p ++ held (record p { cache = insert a v p.cache })) (v ++ held p)
  held-insert a v p =
      rw
        (
          ← append_assoc (cached a p) (flat (insert a v p.cache)) (p.closing ++ p.closed),
          ← append_assoc v (flat p.cache) (p.closing ++ p.closed),
        )
        (Perm.append_right (p.closing ++ p.closed) (flat-insert a v p.cache))

  held-purge_upstream : (a : Text) (p : ConnPool F) → Perm (held (purge_upstream a p)) (held p)
  unfolding purge_upstream
  held-purge_upstream a p = elim (Option-cases (lookup a p.cache)) [
    | inl missing ↦ rw (missing, purge_upstream) (Perm.refl (held p))
    | inr (conns, e) ↦
        let kept = flat (insert a [] p.cache) in
        rw (e, purge_upstream, append_assoc conns p.closing p.closed)
          (Perm.trans (append_left_comm kept conns (p.closing ++ p.closed))
            (rw (e, or_nil) at (held-insert a [] p)))
  ]

  pub held-cool_and_purge_upstream :
      (config : Configuration) (now : Time) (a : Text) (p : ConnPool F)
      → Perm (held (cool_and_purge_upstream config now a p)) (held p)
  unfolding cool_and_purge_upstream
  held-cool_and_purge_upstream config now a p = held-purge_upstream a _

module _ {F : Type 0} (fl : Floats F) where
  module _ (sort_slice : SortSlice (Upstream F)) (config : Configuration) (now : Time) where
    -- Updating an upstream moves connections, and loses none.
    held-update_upstream :
        (ce : ConnEntry F) (p : ConnPool F)
        → Perm (held (update_upstream fl sort_slice config now ce p).0) (held p)
    unfolding update_upstream sort_upstreams weight_upstream
    held-update_upstream ce p =
        let a = address_of ce in
        let Same = λ (q : ConnPool F). Perm (held q) (held p) in
        let unmoved = Perm.refl (held p) in
        let weighed = if_ind Same (fl.eqb (get_weight fl ce) fl.zero) unmoved unmoved in
        if_ind (λ (r : ConnPool F × Bool). Same r.0)
          (is_some (get_upstream_by_address a p.upstreams))
          (if_ind Same ce.error (Perm.trans (held-cool_and_purge_upstream config now a _) weighed)
            weighed)
          unmoved

    pub held-add :
        (ce : ConnEntry F) (p : ConnPool F)
        → Perm (held (add fl sort_slice config now ce p).0) (ce ∷ held p)
    unfolding add
    held-add ce p =
        let q = (update_upstream fl sort_slice config now ce p).0 in
        Perm.trans
          (Perm.append_right (q.closing ++ q.closed)
            (flat-insert_append (address_of ce) ce (cached (address_of ce) q) q.cache refl))
          (Perm.cons ce (held-update_upstream ce p))

    pub held-close_connection :
        (ce : ConnEntry F) (p : ConnPool F)
        → Perm (held (close_connection fl sort_slice config now ce p)) (ce ∷ held p)
    unfolding close_connection
    held-close_connection ce p =
        let q = (update_upstream fl sort_slice config now ce p).0 in
        Perm.trans (Perm.append_left (flat q.cache) (perm_middle q.closing q.closed)) (
          Perm.trans (perm_middle (flat q.cache) (q.closing ++ q.closed))
            (Perm.cons ce (held-update_upstream ce p)))

  -- If Get returns, then either it has taken the connection that it returns out of the pool, and no
  -- other, and names no upstream; or it leaves the pool as it was, returns the entry without a
  -- connection, and names the best upstream.
  pub held-get :
      (now : ℕ → Time) (p : ConnPool F) (g : Got fl)
      → get fl now p ≡ some g
      → (Perm (held p) (g.ce ∷ held g.pool) × (g.upstream ≡ no_upstream fl))
        ⊎ ((g.pool ≡ p)
            × (g.ce ≡ no_conn_entry fl)
            × (get_best_upstream fl now p ≡ some g.upstream))
  unfolding get
  held-get now p g e = elim (Option-cases (get_best_upstream fl now p)) [
    | inl empty ↦ cc (rw (empty, get) at e)
    | inr (u, best) ↦ elim (List-cases (cached (get_address u) p)) [
      | inl none_cached ↦
          let same = rw (best, none_cached, get) at e in
          inr (ground arith, ground arith, ground arith)
      | inr (ce, rest, some_cached) ↦
          let same = some-injective _ _ (rw (best, some_cached, get) at e) in
          inl (
            subst
              (λ (o : Got fl). Perm (held p) (o.ce ∷ held o.pool) × (o.upstream ≡ no_upstream fl))
              same
              (
                Perm.append_right (p.closing ++ p.closed)
                    (flat-insert_rest (get_address u) ce rest p.cache some_cached),
                refl,
              ))
    ]
  ]
