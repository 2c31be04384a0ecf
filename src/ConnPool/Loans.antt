-- ===== src/ConnPool/Loans.antt =====
-- Pools that their users' moves lead to, by the connections that are lent, in no order.
use mathlib.Core.Logic.{∥∥₁_map}
use mathlib.Core.List.{Perm, append_of_mem, mem-cons_self, perm_middle}
use mathlib.Core.List.Perm
use funkyd.Base.{
  ◌≡◌, refl, subst, ap, ◌∙◌, Option, none, some, List, [], ◌∷◌, ◌++◌, ℕ, or_cons, Bool, true, false,
  if◌then◌else◌,
}
use funkyd.Base.Text.{Text}
use funkyd.Base.Time.{Time, Duration}
use funkyd.Base.Floats.{Floats}
use funkyd.Config.{Configuration}
use funkyd.Upstream.{Upstream, is_no_upstream, get_address}
use funkyd.ConnEntry.{ConnEntry, Dialled, add_exchange, add_error}
use funkyd.ConnPool
use funkyd.ConnPool.{ConnPool, Got, SortSlice, close_connection, new_connection}
use funkyd.ConnPool.Ownership.{held}
use funkyd.ConnPool.Accounting.{Reach-Accounted}
use funkyd.ConnPool.Lifecycle.{
  World, start, takes, dials, exchanges, fails, returns, closes, purges, Reach, here, next, ids,
}

-- An element of a permuted list, taken out.
perm-split :
    {A : Type 0} (x : A) (xs rest : List A)
    → Perm xs (x ∷ rest)
    → ∥ ((l : List A) × (r : List A) × (xs ≡ l ++ x ∷ r) × Perm (l ++ r) rest) ∥₁
perm-split x xs rest p =
    ∥∥₁_map (append_of_mem ((Perm.mem_iff (Perm.symm p)).0 mem-cons_self)) (λ (l, r, e). (
      l,
      r,
      e,
      Perm.cons_inv
          (Perm.trans (Perm.symm (perm_middle l r)) (subst (λ ys. Perm ys (x ∷ rest)) e p)),
    ))

module _ {F : Type 0} (fl : Floats F) (sort_slice : SortSlice (Upstream F)) (config : Configuration)
    (us : List (Upstream F)) where
  -- Moves from a list of upstreams to the pool p, after which the connections l are lent.
  pub record Loan (p : ConnPool F) (l : List (ConnEntry F)) : Type 0 where
    pub world : World F
    pub reach : Reach fl sort_slice config (start us) world
    pub pool_is : world.pool ≡ p
    pub lent_are : Perm world.lent l

  pub Loan-perm : (p : ConnPool F) (l l' : List (ConnEntry F)) → Perm l l' → Loan p l → Loan p l'
  Loan-perm p l l' e v = record {
    world = v.world;
    reach = v.reach;
    pool_is = v.pool_is;
    lent_are = Perm.trans v.lent_are e;
  }

  move :
      (p p' : ConnPool F) (ce : ConnEntry F) (l l' : List (ConnEntry F))
      → ((v : Loan p (ce ∷ l)) (xs ys : List (ConnEntry F))
          → v.world.lent ≡ xs ++ ce ∷ ys
          → Perm (xs ++ ys) l
          → Loan p' l')
      → Loan p (ce ∷ l)
      → ∥ Loan p' l' ∥₁
  move p p' ce l l' f v =
      ∥∥₁_map (perm-split ce v.world.lent l v.lent_are) (λ (xs, ys, e, k). f v xs ys e k)

  pub Loan-exchange :
      (rtt : Duration) (p : ConnPool F) (ce : ConnEntry F) (l : List (ConnEntry F))
      → Loan p (ce ∷ l)
      → ∥ Loan p (add_exchange config rtt ce ∷ l) ∥₁
  Loan-exchange rtt p ce l = move p p ce l _ (λ v xs ys e k. record {
    world = record v.world { lent = xs ++ add_exchange config rtt ce ∷ ys };
    reach = next v.reach (exchanges xs ce ys rtt e refl);
    pool_is = v.pool_is;
    lent_are = Perm.trans (perm_middle xs ys) (Perm.cons _ k);
  })

  pub Loan-fail :
      (p : ConnPool F) (ce : ConnEntry F) (l : List (ConnEntry F))
      → Loan p (ce ∷ l)
      → ∥ Loan p (add_error ce ∷ l) ∥₁
  Loan-fail p ce l = move p p ce l _ (λ v xs ys e k. record {
    world = record v.world { lent = xs ++ add_error ce ∷ ys };
    reach = next v.reach (fails xs ce ys e refl);
    pool_is = v.pool_is;
    lent_are = Perm.trans (perm_middle xs ys) (Perm.cons _ k);
  })

  pub Loan-return :
      (now : Time) (p : ConnPool F) (ce : ConnEntry F) (l : List (ConnEntry F))
      → Loan p (ce ∷ l)
      → ∥ Loan (ConnPool.add fl sort_slice config now ce p).0 l ∥₁
  Loan-return now p ce l = move p _ ce l l (λ v xs ys e k. record {
    world = record v.world {
      pool = (ConnPool.add fl sort_slice config now ce v.world.pool).0;
      lent = xs ++ ys;
    };
    reach = next v.reach (returns now xs ce ys e refl);
    pool_is = rw v.pool_is refl;
    lent_are = k;
  })

  pub Loan-close :
      (now : Time) (p : ConnPool F) (ce : ConnEntry F) (l : List (ConnEntry F))
      → Loan p (ce ∷ l)
      → ∥ Loan (close_connection fl sort_slice config now ce p) l ∥₁
  Loan-close now p ce l = move p _ ce l l (λ v xs ys e k. record {
    world = record v.world {
      pool = close_connection fl sort_slice config now ce v.world.pool;
      lent = xs ++ ys;
    };
    reach = next v.reach (closes now xs ce ys e refl);
    pool_is = rw v.pool_is refl;
    lent_are = k;
  })

  -- What Get returns is lent, unless it names an upstream to dial.
  pub Loan-take :
      (now : ℕ → Time) (p : ConnPool F) (g : Got fl) (l : List (ConnEntry F))
      → ConnPool.get fl now p ≡ some g
      → Loan p l
      → Loan g.pool (if is_no_upstream fl g.upstream then g.ce ∷ l else l)
  Loan-take now p g l got v = record {
    world = record v.world {
      pool = g.pool;
      lent = if is_no_upstream fl g.upstream then g.ce ∷ v.world.lent else v.world.lent;
    };
    reach = next v.reach (takes now g (ap (ConnPool.get fl now) v.pool_is ∙ got) refl);
    pool_is = refl;
    lent_are = taken (is_no_upstream fl g.upstream);
  }
    where
      taken :
          (b : Bool)
          → Perm (if b then g.ce ∷ v.world.lent else v.world.lent) (if b then g.ce ∷ l else l)
      taken true = Perm.cons g.ce v.lent_are
      taken false = v.lent_are

  pub Loan-dial :
      (now : Time) (u : Upstream F) (dial : Text → Dialled) (p : ConnPool F)
      (l : List (ConnEntry F))
      → Loan p l
      → let r = new_connection config now u dial p in Loan r.0 (or_cons r.1 l)
  Loan-dial now u dial p l v = record {
    world =
        let r = new_connection config now u dial v.world.pool in
        record {
          pool = r.0;
          lent = or_cons r.1 v.world.lent;
          opened = or_cons (dial (get_address u)).conn v.world.opened;
        };
    reach = next v.reach (dials now u dial refl);
    pool_is = rw v.pool_is refl;
    lent_are = rw v.pool_is (dialled (new_connection config now u dial p).1);
  }
    where
      dialled : (o : Option (ConnEntry F)) → Perm (or_cons o v.world.lent) (or_cons o l)
      dialled none = v.lent_are
      dialled (some ce) = Perm.cons ce v.lent_are

  pub Loan-purge :
      (now : Time) (p : ConnPool F) (xs : List (ConnEntry F)) (ce : ConnEntry F)
      (ys l : List (ConnEntry F))
      → p.closing ≡ xs ++ ce ∷ ys
      → Loan p l
      → Loan (close_connection fl sort_slice config now ce (record p { closing = xs ++ ys })) l
  Loan-purge now p xs ce ys l e v = record {
    world = record v.world {
      pool =
          close_connection fl sort_slice config now ce (record v.world.pool { closing = xs ++ ys });
    };
    reach =
        next v.reach (purges now xs ce ys (ap (λ (q : ConnPool F). q.closing) v.pool_is ∙ e) refl);
    pool_is =
        ap
          (λ (q : ConnPool F).
            close_connection fl sort_slice config now ce (record q { closing = xs ++ ys }))
          v.pool_is;
    lent_are = v.lent_are;
  }

  pub start-Loan : Loan (start us).pool []
  start-Loan = record { world = start us; reach = here; pool_is = refl; lent_are = Perm.refl [] }

  -- The connections that are lent or held by the pool are those that were dialled.
  pub Loan-Accounted :
      (p : ConnPool F) (l : List (ConnEntry F)) (v : Loan p l)
      → Perm (ids (l ++ held p)) v.world.opened
  Loan-Accounted p l v =
      Perm.trans
        (Perm.filter_map (λ (ce : ConnEntry F). ce.conn)
          (subst (λ q. Perm (l ++ held q) (v.world.lent ++ held v.world.pool)) v.pool_is
            (Perm.append_right (held v.world.pool) (Perm.symm v.lent_are))))
        (Reach-Accounted fl sort_slice config us v.world v.reach)
