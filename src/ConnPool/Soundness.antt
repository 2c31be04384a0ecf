-- ===== src/ConnPool/Soundness.antt =====
-- Pools that have an upstream to choose, and no entry without a connection.
use mathlib.Core.List.Perm
use funkyd.Base.{
  ℕ, ◌≡◌, refl, inl, inr, Bool, true, false, not, Option, List, [], ◌∷◌, arith, All, Bool-cases,
  Option-cases, if_ind, or_cons,
}
use funkyd.Base.Text.{Text, text_eq}
use funkyd.Base.Time.{Time, Duration}
use funkyd.Base.Floats.{Floats}
use funkyd.Base.Map.{is_some}
use funkyd.Base.Perms.{All-perm, is_cons, is_cons-perm}
use funkyd.Config.{Configuration, cooldown_duration}
use funkyd.Upstream.{Upstream, get_address, set_weight, cooldown, is_no_upstream}
use funkyd.ConnEntry.{ConnEntry, Dialled, address_of, add_exchange, new_entry, get_weight}
use funkyd.ConnPool.{
  ConnPool, SortSlice, modify_upstream, cool_and_purge_upstream, update_upstream, sort_upstreams,
  weight_upstream, add, close_connection, new_connection, get_upstream_by_address,
}
use funkyd.ConnPool.Ownership.{held, held-add, held-close_connection, held-cool_and_purge_upstream}
use funkyd.ConnPool.Sorting.{IsSort, purge_upstream-upstreams}

module _ {F : Type 0} where
  abbrev pub has_name : Upstream F → Bool
  has_name u = not (text_eq u.name [])

  abbrev pub has_conn : ConnEntry F → Bool
  has_conn ce = is_some ce.conn

  -- At least one upstream, and each has a name.
  abbrev pub Named : List (Upstream F) → Type 0
  Named us = All (λ u. has_name u ≡ true) us × (is_cons us ≡ true)

  pub record IsSound (p : ConnPool F) : Type 0 where
    pub named : Named p.upstreams
    pub connected : All (λ ce. has_conn ce ≡ true) (held p)

  pub is_no_upstream-has_name :
      (fl : Floats F) (u : Upstream F) → has_name u ≡ true → is_no_upstream fl u ≡ false
  unfolding is_no_upstream
  is_no_upstream-has_name fl u n = ground arith

  All-modify_upstream :
      (a : Text) (f : Upstream F → Upstream F) (us : List (Upstream F))
      → ((u : Upstream F) → (f u).name ≡ u.name)
      → All (λ u. has_name u ≡ true) us
      → All (λ u. has_name u ≡ true) (modify_upstream a f us)
  unfolding modify_upstream
  All-modify_upstream a f [] e h = tt
  All-modify_upstream a f (u ∷ us) e h = elim (Bool-cases (text_eq (get_address u) a)) [
    | inl hit ↦ rw (hit, e u) h
    | inr miss ↦ rw miss (h.0, All-modify_upstream a f us e h.1)
  ]

  is_cons-modify_upstream :
      (a : Text) (f : Upstream F → Upstream F) (us : List (Upstream F))
      → is_cons us ≡ true
      → is_cons (modify_upstream a f us) ≡ true
  unfolding modify_upstream
  is_cons-modify_upstream a f [] h = h
  is_cons-modify_upstream a f (u ∷ us) h = ground arith

  modify_upstream-Named :
      (a : Text) (f : Upstream F → Upstream F) (us : List (Upstream F))
      → ((u : Upstream F) → (f u).name ≡ u.name)
      → Named us
      → Named (modify_upstream a f us)
  modify_upstream-Named a f us e n =
      (All-modify_upstream a f us e n.0, is_cons-modify_upstream a f us n.1)

  cool_and_purge_upstream-Named :
      (fl : Floats F) (config : Configuration) (now : Time) (a : Text) (p : ConnPool F)
      → Named p.upstreams
      → Named (cool_and_purge_upstream config now a p).upstreams
  unfolding cool_and_purge_upstream cooldown
  cool_and_purge_upstream-Named fl config now a p n =
      let us = modify_upstream a (cooldown now (cooldown_duration config)) p.upstreams in
      rw (purge_upstream-upstreams fl a (record p { upstreams = us })) (
        modify_upstream-Named a (cooldown now (cooldown_duration config)) p.upstreams (λ u. refl) n)

  has_conn-add_exchange :
      (config : Configuration) (d : Duration) (c : ℕ) (u : Upstream F)
      → has_conn (add_exchange config d (new_entry c u)) ≡ true
  unfolding add_exchange new_entry
  has_conn-add_exchange config d c u = ground arith

  -- A dial that succeeds gives an entry with a connection; the pool stays sound either way.
  pub new_connection-IsSound :
      (fl : Floats F) (config : Configuration) (now : Time) (u : Upstream F) (dial : Text → Dialled)
      (p : ConnPool F)
      → IsSound p
      → IsSound (new_connection config now u dial p).0
        × All (λ ce. has_conn ce ≡ true) (or_cons (new_connection config now u dial p).1 [])
  unfolding new_connection
  new_connection-IsSound fl config now u dial p s =
      elim (Option-cases (dial (get_address u)).conn) [
        | inl refused ↦
            let cooled : IsSound (cool_and_purge_upstream config now (get_address u) p) = record {
              named = cool_and_purge_upstream-Named fl config now (get_address u) p s.named;
              connected =
                  All-perm has_conn
                    (Perm.symm (held-cool_and_purge_upstream config now (get_address u) p))
                    s.connected;
            } in
            rw (refused, new_connection, or_cons)
              (if_ind
                (λ (r : ConnPool F × Option (ConnEntry F)).
                  IsSound r.0 × All (λ ce. has_conn ce ≡ true) (or_cons r.1 []))
                (is_some (get_upstream_by_address (get_address u) p.upstreams)) (cooled, tt)
                (s, tt))
        | inr (c, reached) ↦
            rw (reached, new_connection, or_cons)
              (s, (has_conn-add_exchange config (dial (get_address u)).duration c u, tt))
      ]

module _ {F : Type 0} (fl : Floats F) (sort_slice : SortSlice (Upstream F))
    (sort : IsSort fl sort_slice) (config : Configuration) (now : Time) (ce : ConnEntry F)
    (p : ConnPool F) where
  update_upstream-Named :
      Named p.upstreams → Named (update_upstream fl sort_slice config now ce p).0.upstreams
  unfolding update_upstream sort_upstreams weight_upstream set_weight
  update_upstream-Named n =
      let a = address_of ce in
      let Kept = λ (q : ConnPool F). Named q.upstreams in
      let weighed =
        if_ind Kept (fl.eqb (get_weight fl ce) fl.zero) n
          (modify_upstream-Named a (set_weight (get_weight fl ce)) p.upstreams (λ u. refl) n) in
      let cooled =
        if_ind Kept ce.error (cool_and_purge_upstream-Named fl config now a _ weighed) weighed in
      let permuted = Perm.symm (sort.permutes _) in
      if_ind (λ (r : ConnPool F × Bool). Kept r.0) (is_some (get_upstream_by_address a p.upstreams))
        (All-perm has_name permuted cooled.0, is_cons-perm _ _ permuted cooled.1) n

  pub add-IsSound : has_conn ce ≡ true → IsSound p → IsSound (add fl sort_slice config now ce p).0
  unfolding add
  add-IsSound live s = record {
    named = update_upstream-Named s.named;
    connected =
        All-perm has_conn (Perm.symm (held-add fl sort_slice config now ce p)) (live, s.connected);
  }

  pub close_connection-IsSound :
      has_conn ce ≡ true → IsSound p → IsSound (close_connection fl sort_slice config now ce p)
  unfolding close_connection
  close_connection-IsSound live s = record {
    named = update_upstream-Named s.named;
    connected =
        All-perm has_conn (Perm.symm (held-close_connection fl sort_slice config now ce p))
          (live, s.connected);
  }
