-- ===== src/MutexServer/Capacity.antt =====
-- How many queries run at a time, and which are answered.
use mathlib.Core.List.{Perm, perm_middle}
use mathlib.Core.List.Perm
use funkyd.Base.{
  ◌⊎◌, ℕ, suc, ◌≤◌, ◌≡◌, refl, sym, ap, inl, inr, List, [], ◌∷◌, ◌++◌, arith, length, length-append,
  map, ◌∙◌,
}
use funkyd.Base.Int.{ℤ, pos}
use funkyd.Base.Floats.{Floats}
use funkyd.Config.{Configuration}
use funkyd.Upstream.{Upstream}
use funkyd.ConnPool.{SortSlice}
use funkyd.Server.{DnsLib}
use funkyd.MutexServer.Handler.{MutexServer}
use funkyd.MutexServer.Concurrency.{
  Semaphore, IsSemaphore, concurrency, Request, Front, new_front, Serves, receives, acquires, ends,
  Run, here, next,
}

module _ {F S : Type 0} (sem : Semaphore S) (laws : IsSemaphore sem) (fl : Floats F)
    (sort_slice : SortSlice (Upstream F)) (config : Configuration) (u : ℤ → ℕ) (dns : DnsLib)
    (limit : ℤ) where
  abbrev pub clients_of : List Request → List ℕ
  clients_of = map (λ (r : Request). r.0)

  pub record IsFair (f : Front F S) : Type 0 where
    pub sized : laws.size f.sem ≡ limit
    pub counted : laws.held f.sem ≡ length f.running
    pub bounded : (length f.running ≡ 0) ⊎ ((n : ℕ) × (limit ≡ pos n) × (length f.running ≤ n))
    pub answered : Perm (clients_of (f.queued ++ (f.running ++ f.replies))) (clients_of f.received)

  length-middle :
      (xs : List Request) (r : Request) (ys : List Request)
      → length (xs ++ r ∷ ys) ≡ suc (length (xs ++ ys))
  length-middle xs r ys = omega (arith, length-append xs (r ∷ ys), length-append xs ys)

  clients-perm : {xs ys : List Request} → Perm xs ys → Perm (clients_of xs) (clients_of ys)
  clients-perm p = Perm.map (λ (r : Request). r.0) p

  pub Serves-IsFair :
      (f g : Front F S) → Serves sem fl sort_slice config u dns f g → IsFair f → IsFair g
  Serves-IsFair f g (receives r named asked e) v = rw e (record {
    sized = v.sized;
    counted = v.counted;
    bounded = v.bounded;
    answered = Perm.cons r.0 v.answered;
  })
  Serves-IsFair f g (acquires xs r ys s e got k) v =
      let (n, fits, room) = laws.acquire_fits f.sem s got in
      let one_queued : Perm f.queued (r ∷ (xs ++ ys)) = rw e (perm_middle xs ys) in
      rw k (record {
        sized = laws.acquire_size f.sem s got ∙ v.sized;
        counted = laws.acquire_held f.sem s got ∙ ap suc v.counted;
        bounded = inr (n, sym v.sized ∙ fits, (rw (← v.counted) room));
        answered =
            Perm.trans
              (clients-perm (
                Perm.trans (perm_middle (xs ++ ys) (f.running ++ f.replies))
                  (Perm.symm (Perm.append_right (f.running ++ f.replies) one_queued))))
              v.answered;
      })
  Serves-IsFair f g (ends env xs r ys server reply e done k) v =
      let one_less = length-middle xs r ys in
      let one_ran : Perm f.running (r ∷ (xs ++ ys)) = rw e (perm_middle xs ys) in
      let others = f.queued ++ ((xs ++ ys) ++ f.replies) in
      let before : Perm (f.queued ++ (f.running ++ f.replies)) (r ∷ others) =
        Perm.trans (Perm.append_left f.queued (Perm.append_right f.replies one_ran))
          (perm_middle f.queued _) in
      let after : Perm (f.queued ++ ((xs ++ ys) ++ (r.0, reply) ∷ f.replies))
          ((r.0, reply) ∷ others) =
        Perm.trans (Perm.append_left f.queued (perm_middle (xs ++ ys) f.replies))
          (perm_middle f.queued _) in
      rw k (record {
        sized = laws.release_size f.sem ∙ v.sized;
        counted = laws.release_held f.sem (length (xs ++ ys)) (v.counted ∙ ap length e ∙ one_less);
        bounded = elim v.bounded [
          | inl none_runs ↦ cc (e, one_less)
          | inr (n, fits, few) ↦ inr (n, fits, omega (arith, ap length e, one_less))
        ];
        answered =
            Perm.trans (clients-perm after)
              (Perm.trans (clients-perm (Perm.symm before)) v.answered);
      })

  pub new_front-IsFair :
      (max_procs : ℕ) (server : MutexServer F)
      → concurrency max_procs config ≡ limit
      → IsFair (new_front sem max_procs config server)
  unfolding new_front
  new_front-IsFair max_procs server e = record {
    sized = laws.new_size _ ∙ e;
    counted = laws.new_held _;
    bounded = inl refl;
    answered = Perm.refl [];
  }

  pub Run-IsFair : (f g : Front F S) → IsFair f → Run sem fl sort_slice config u dns f g → IsFair g
  Run-IsFair f g v here = v
  Run-IsFair f g v (next {g = h} r m) = Serves-IsFair h g m (Run-IsFair f h v r)

module _ {F S : Type 0} (sem : Semaphore S) (laws : IsSemaphore sem) (fl : Floats F)
    (sort_slice : SortSlice (Upstream F)) (config : Configuration) (u : ℤ → ℕ) (dns : DnsLib) where
  -- For a semaphore that behaves as documented, however requests arrive, start and end: either no
  -- query runs, or the concurrency that the configuration asks for is positive and at most that
  -- many run; and the clients of the requests that wait, run or have been replied to are the
  -- clients of all requests.
  pub Run-length :
      (max_procs : ℕ) (server : MutexServer F) (f : Front F S)
      → Run sem fl sort_slice config u dns (new_front sem max_procs config server) f
      → ((length f.running ≡ 0)
          ⊎ ((n : ℕ) × (concurrency max_procs config ≡ pos n) × (length f.running ≤ n)))
        × Perm
            (map (λ (r : Request). r.0) (f.queued ++ (f.running ++ f.replies)))
            (map (λ (r : Request). r.0) f.received)
  Run-length max_procs server f r =
      let limit = concurrency max_procs config in
      let v =
        Run-IsFair sem laws fl sort_slice config u dns limit _ f
          (new_front-IsFair sem laws fl sort_slice config u dns limit max_procs server refl) r in
      (v.bounded, v.answered)
