-- ===== src/MutexServer/Threads/Borrowed.antt =====
-- Which connections are out of the pool while requests are handled.
use mathlib.Core.Logic.{∥∥₁_elim, ∥∥₁_prop}
use mathlib.Core.List.{Perm, filter_map}
use mathlib.Core.List.Perm
use mathlib.Core.Option.{some-injective}
use funkyd.Base.{
  ℕ, ◌+◌, ◌≡◌, refl, subst, inl, inr, Option, none, some, List, ◌∷◌, Option-cases, Bool-cases,
  or_cons, ◌==◌,
}
use funkyd.Base.Int.{ℤ, pos, leb_int}
use funkyd.Base.Floats.{Floats}
use funkyd.Config.{Configuration}
use funkyd.Upstream.{Upstream, is_no_upstream}
use funkyd.ConnEntry.{ConnEntry}
use funkyd.Cache.{Response}
use funkyd.ConnPool
use funkyd.ConnPool.{ConnPool, Got, SortSlice, new_connection, close_connection}
use funkyd.ConnPool.Lifecycle
use funkyd.ConnPool.Loans.{
  Loan, Loan-exchange, Loan-fail, Loan-return, Loan-close, Loan-take, Loan-dial,
}
use funkyd.Server.{DnsLib, attempt_exchange-conn, attempt_exchange_nil}
use funkyd.MutexServer.{query_message}
use funkyd.MutexServer.Handler.{MutexServer}
use funkyd.MutexServer.Threads.{
  Job, Stage, looking, hosting, connecting, dialling, exchanging, dropping, returning, storing,
  replying, refusing, Progress, goes_on, writes, Weather, advance, Threads,
}

module _ {F : Type 0} where
  -- The connection that a goroutine works with.
  abbrev pub borrowed : Stage F → Option (ConnEntry F)
  borrowed looking = none
  borrowed hosting = none
  borrowed (connecting i) = none
  borrowed (dialling i u) = none
  borrowed (exchanging i ce) = some ce
  borrowed (dropping i ce) = some ce
  borrowed (returning ce m) = some ce
  borrowed (storing r) = none
  borrowed (replying r) = none
  borrowed refusing = none

  abbrev kept : Progress F → Option (ConnEntry F)
  kept (goes_on stage) = borrowed stage
  kept (writes reply) = none

  abbrev pub all_borrowed : List (Job × Stage F) → List (ConnEntry F)
  all_borrowed = filter_map (λ (t : Job × Stage F). borrowed t.1)

module _ {F : Type 0} (fl : Floats F) (sort_slice : SortSlice (Upstream F)) (config : Configuration)
    (us : List (Upstream F)) where
  abbrev pub Keeps : MutexServer F × Progress F → List (ConnEntry F) → Type 0
  Keeps o l = ∥ Loan fl sort_slice config us o.0.conn_pool (or_cons (kept o.1) l) ∥₁

  module _ (u : ℤ → ℕ) (dns : DnsLib) (w : Weather) (job : Job) (s : MutexServer F)
      (l : List (ConnEntry F)) where
    connecting-Keeps :
        (i : ℕ) (o : MutexServer F × Progress F)
        → advance fl sort_slice config u dns w job s (connecting i) ≡ some o
        → Loan fl sort_slice config us s.conn_pool l
        → Keeps o l
    unfolding advance
    connecting-Keeps i o e v = elim (Bool-cases (leb_int (pos i) config.upstream_retries)) [
      | inl again ↦ elim (Option-cases (ConnPool.get fl w.clock s.conn_pool)) [
        | inl empty ↦ cc (rw (again, empty) at e)
        | inr (g, got) ↦
            let loan = Loan-take fl sort_slice config us w.clock s.conn_pool g l got v in
            elim (Bool-cases (is_no_upstream fl g.upstream)) [
              | inl taken ↦
                  subst (λ x. Keeps x l) (some-injective _ _ (rw (again, got, taken) at e))
                    (∣ rw taken at loan ∣₁)
              | inr named ↦
                  subst (λ x. Keeps x l) (some-injective _ _ (rw (again, got, named) at e))
                    (∣ rw named at loan ∣₁)
            ]
      ]
      | inr over ↦ elim (Bool-cases (i == 0)) [
        | inl none_made ↦ cc (rw (over, none_made) at e)
        | inr failed ↦ subst (λ x. Keeps x l) (some-injective _ _ (rw (over, failed) at e)) (∣ v ∣₁)
      ]
    ]

    dialling-Keeps :
        (i : ℕ) (up : Upstream F) (o : MutexServer F × Progress F)
        → advance fl sort_slice config u dns w job s (dialling i up) ≡ some o
        → Loan fl sort_slice config us s.conn_pool l
        → Keeps o l
    unfolding advance
    dialling-Keeps i up o e v =
        let r = new_connection config (w.clock 0) up w.dial s.conn_pool in
        let loan = Loan-dial fl sort_slice config us (w.clock 0) up w.dial s.conn_pool l v in
        subst (λ x. Keeps x l) (some-injective _ _ e) (go r.1 loan)
      where
        go :
            (c : Option (ConnEntry F)) {p : ConnPool F}
            → Loan fl sort_slice config us p (or_cons c l)
            → ∥ Loan fl sort_slice config us p (
                or_cons
                  (kept (elim c [
                    | none ↦ goes_on (connecting (i + 1))
                    | some ce ↦ goes_on (exchanging i ce)
                  ]))
                  l) ∥₁
        go none v = ∣ v ∣₁
        go (some ce) v = ∣ v ∣₁

    exchanging-Keeps :
        (i : ℕ) (ce : ConnEntry F) (o : MutexServer F × Progress F)
        → advance fl sort_slice config u dns w job s (exchanging i ce) ≡ some o
        → Loan fl sort_slice config us s.conn_pool (ce ∷ l)
        → Keeps o l
    unfolding advance
    exchanging-Keeps i ce o e v = elim (Option-cases ce.conn) [
      | inl nil ↦ cc (
          rw
            (
              attempt_exchange_nil config w.exchange (query_message dns job.domain job.rrtype) ce
                  nil,
              advance,
            )
            at e)
      | inr (c, has) ↦
          let x = w.exchange (query_message dns job.domain job.rrtype) c in
          let asked =
            attempt_exchange-conn config w.exchange (query_message dns job.domain job.rrtype) ce c
              has in
          let used = Loan-exchange fl sort_slice config us x.rtt s.conn_pool ce l v in
          elim (Option-cases x.reply) [
            | inl lost ↦
                subst (λ y. Keeps y l) (some-injective _ _ (rw (asked, lost, advance) at e))
                  (∥∥₁_elim used ∥∥₁_prop (Loan-fail fl sort_slice config us s.conn_pool _ l))
            | inr (reply, came) ↦
                subst (λ y. Keeps y l) (some-injective _ _ (rw (asked, came, advance) at e)) used
          ]
    ]

    -- Neither a hit nor a miss borrows anything.
    found_or :
        (o : Option Response) (miss : Stage F) (p : ConnPool F)
        → borrowed miss ≡ none
        → Loan fl sort_slice config us p l
        → ∥ Loan fl sort_slice config us p
            (or_cons (kept (elim o [ none ↦ goes_on miss | some r ↦ goes_on (replying r) ])) l) ∥₁
    found_or none miss p e v = ∣ rw e v ∣₁
    found_or (some r) miss p e v = ∣ v ∣₁

    pub advance-Keeps :
        (stage : Stage F) (o : MutexServer F × Progress F)
        → advance fl sort_slice config u dns w job s stage ≡ some o
        → Loan fl sort_slice config us s.conn_pool (or_cons (borrowed stage) l)
        → Keeps o l
    unfolding advance
    advance-Keeps looking o e v =
        subst (λ x. Keeps x l) (some-injective _ _ e) (found_or _ hosting s.conn_pool refl v)
    advance-Keeps hosting o e v =
        subst (λ x. Keeps x l) (some-injective _ _ e) (found_or _ (connecting 0) s.conn_pool refl v)
    advance-Keeps (connecting i) o e v = connecting-Keeps i o e v
    advance-Keeps (dialling i up) o e v = dialling-Keeps i up o e v
    advance-Keeps (exchanging i ce) o e v = exchanging-Keeps i ce o e v
    advance-Keeps (dropping i ce) o e v =
        subst (λ x. Keeps x l) (some-injective _ _ e)
          (Loan-close fl sort_slice config us (w.clock 0) s.conn_pool ce l v)
    advance-Keeps (returning ce reply) o e v =
        subst (λ x. Keeps x l) (some-injective _ _ e)
          (Loan-return fl sort_slice config us (w.clock 0) s.conn_pool ce l v)
    advance-Keeps (storing r) o e v = subst (λ x. Keeps x l) (some-injective _ _ e) (∣ v ∣₁)
    advance-Keeps (replying r) o e v = subst (λ x. Keeps x l) (some-injective _ _ e) (∣ v ∣₁)
    advance-Keeps refusing o e v = subst (λ x. Keeps x l) (some-injective _ _ e) (∣ v ∣₁)

  -- The connections of all goroutines are lent, and no others.
  IsLent : Threads F → Type 0
  IsLent t = ∥ Loan fl sort_slice config us t.server.conn_pool (all_borrowed t.threads) ∥₁
