-- ===== src/MutexServer/Runs.antt =====
-- One run after another, and what the clock and the network answer on the way.
use funkyd.Base.{ℕ, ◌≡◌}
use funkyd.Base.Int.{ℤ}
use funkyd.Base.Floats.{Floats}
use funkyd.Config.{Configuration}
use funkyd.Upstream.{Upstream}
use funkyd.ConnPool.{SortSlice}
use funkyd.Server.{DnsLib}
use funkyd.MutexServer.{Environment}
use funkyd.MutexServer.Concurrency.{Semaphore, Front, receives, acquires, ends, Run, here, next}

module _ {F S : Type 0} (sem : Semaphore S) (fl : Floats F) (sort_slice : SortSlice (Upstream F))
    (config : Configuration) (u : ℤ → ℕ) (dns : DnsLib) where
  pub Run-append :
      (f g h : Front F S)
      → Run sem fl sort_slice config u dns f g
      → Run sem fl sort_slice config u dns g h
      → Run sem fl sort_slice config u dns f h
  Run-append f g h r here = r
  Run-append f g h r (next {g = g'} r' m) = next (Run-append f g g' r r') m

  module _ (env : Front F S → Environment) where
    -- The network and the clock answer each query that ends as they do in the state at hand.
    abbrev pub Meets : {f g : Front F S} → Run sem fl sort_slice config u dns f g → Type 0
    Meets here = Unit
    Meets (next run (receives r named asked e)) = Meets run
    Meets (next run (acquires xs r ys s e got k)) = Meets run
    Meets (next {g} run (ends w xs r ys server reply e done k)) = Meets run × (w ≡ env g)

    pub Meets-append :
        (f g h : Front F S) (a : Run sem fl sort_slice config u dns f g)
        (b : Run sem fl sort_slice config u dns g h)
        → Meets a
        → Meets b
        → Meets (Run-append f g h a b)
    unfolding Run-append
    Meets-append f g h a here m n = m
    Meets-append f g h a (next {g = x} b (receives r named asked e)) m n =
        Meets-append f g x a b m n
    Meets-append f g h a (next {g = x} b (acquires xs r ys s e got k)) m n =
        Meets-append f g x a b m n
    Meets-append f g h a (next {g = x} b (ends w xs r ys server reply e done k)) m (n, same) =
        (Meets-append f g x a b m n, same)
