-- ===== src/MutexServer/Threads/Advances.antt =====
-- One step of a goroutine on a sound pool, and the steps it has left.
use funkyd.Base.{
  ℕ, ◌+◌, ◌*◌, ◌-◌, ◌<◌, ◌≤◌, ◌≡◌, refl, inl, inr, true, false, Option, none, some, arith,
  Option-cases, Bool-cases, ◌==◌,
}
use funkyd.Base.Int.{ℤ, pos, leb_int}
use funkyd.Base.Floats.{Floats}
use funkyd.Config.{Configuration}
use funkyd.Upstream.{Upstream, is_no_upstream}
use funkyd.ConnEntry.{ConnEntry, add_error, add_exchange}
use funkyd.Cache.{Response}
use funkyd.ConnPool.{SortSlice, new_connection}
use funkyd.ConnPool.Sorting.{IsSort}
use funkyd.ConnPool.Choice.{get-IsSound}
use funkyd.ConnPool.Soundness.{
  IsSound, has_conn, new_connection-IsSound, add-IsSound, close_connection-IsSound,
}
use funkyd.Server.{DnsLib, attempt_exchange-conn}
use funkyd.MutexServer.{query_message}
use funkyd.MutexServer.Handler.{MutexServer}
use funkyd.MutexServer.Threads.{
  Job, Stage, looking, hosting, connecting, dialling, exchanging, dropping, returning, storing,
  replying, refusing, Progress, goes_on, writes, Weather, advance,
}

module _ {F : Type 0} (n : ℕ) where
  -- What holds of a stage, with n retries.
  abbrev pub Fits : Stage F → Type 0
  Fits looking = Unit
  Fits hosting = Unit
  Fits (connecting i) = i ≤ n + 1
  Fits (dialling i u) = i ≤ n
  Fits (exchanging i ce) = (i ≤ n) × (has_conn ce ≡ true)
  Fits (dropping i ce) = (i ≤ n) × (has_conn ce ≡ true)
  Fits (returning ce m) = has_conn ce ≡ true
  Fits (storing r) = Unit
  Fits (replying r) = Unit
  Fits refusing = Unit

  -- The steps that a goroutine has left to make, at most.
  abbrev pub steps_left : Stage F → ℕ
  steps_left looking = 4 * (n + 1) + 6
  steps_left hosting = 4 * (n + 1) + 5
  steps_left (connecting i) = 4 * (n + 1 - i) + 4
  steps_left (dialling i u) = 4 * (n - i) + 7
  steps_left (exchanging i ce) = 4 * (n - i) + 6
  steps_left (dropping i ce) = 4 * (n - i) + 5
  steps_left (returning ce m) = 3
  steps_left (storing r) = 2
  steps_left (replying r) = 1
  steps_left refusing = 1

  abbrev pub FitsAfter : Progress F → Type 0
  FitsAfter (goes_on stage) = Fits stage
  FitsAfter (writes reply) = Unit

  abbrev pub left_after : Progress F → ℕ
  left_after (goes_on stage) = steps_left stage
  left_after (writes reply) = 0

module _ {F : Type 0} (fl : Floats F) (sort_slice : SortSlice (Upstream F))
    (sort : IsSort fl sort_slice) (config : Configuration) (n : ℕ)
    (counted : config.upstream_retries ≡ pos n) (u : ℤ → ℕ) (dns : DnsLib) where
  -- A step that leaves the pool sound, a stage that fits, and less to do.
  pub record Advances (w : Weather) (job : Job) (s : MutexServer F) (stage : Stage F) : Type 0 where
    pub result : MutexServer F × Progress F
    pub comes : advance fl sort_slice config u dns w job s stage ≡ some result
    pub sound : IsSound result.0.conn_pool
    pub fits : FitsAfter n result.1
    pub less : left_after n result.1 < steps_left n stage

  module _ (w : Weather) (job : Job) (s : MutexServer F) (sound : IsSound s.conn_pool) where
    found_or :
        (o : Option Response) (stage miss : Stage F) (s' : MutexServer F)
        → IsSound s'.conn_pool
        → Fits n miss
        → steps_left n miss < steps_left n stage
        → 1 < steps_left n stage
        → advance fl sort_slice config u dns w job s stage
          ≡ some (s', elim o [ none ↦ goes_on miss | some r ↦ goes_on (replying r) ])
        → Advances w job s stage
    found_or none stage miss s' v fits less one e = record {
      result = (s', goes_on miss);
      comes = e;
      sound = v;
      fits = fits;
      less = less;
    }
    found_or (some r) stage miss s' v fits less one e = record {
      result = (s', goes_on (replying r));
      comes = e;
      sound = v;
      fits = tt;
      less = one;
    }

    connecting-Advances : (i : ℕ) → i ≤ n + 1 → Advances w job s (connecting i)
    unfolding advance
    connecting-Advances i few = elim (Bool-cases (leb_int (pos i) config.upstream_retries)) [
      | inr over ↦
          let past : i ≡ n + 1 = ground arith in
          let failed : (i == 0) ≡ false = ground arith in
          record {
            result = (s, goes_on refusing);
            comes = rw (over, failed, advance) refl;
            sound = sound;
            fits = tt;
            less = omega arith;
          }
      | inl again ↦
          let below : i ≤ n = ground arith in
          let (g, got, kept, ready) = get-IsSound fl w.clock s.conn_pool sound in
          elim (Bool-cases (is_no_upstream fl g.upstream)) [
            | inl taken ↦
                let has : has_conn g.ce ≡ true = elim ready [ inl named ↦ cc | inr has ↦ has ] in
                record {
                  result = (record s { conn_pool = g.pool }, goes_on (exchanging i g.ce));
                  comes = rw (again, got, taken, advance) refl;
                  sound = kept;
                  fits = (below, has);
                  less = omega arith;
                }
            | inr named ↦ record {
              result = (record s { conn_pool = g.pool }, goes_on (dialling i g.upstream));
              comes = rw (again, got, named, advance) refl;
              sound = kept;
              fits = below;
              less = omega arith;
            }
          ]
    ]

    dialling-Advances : (i : ℕ) (up : Upstream F) → i ≤ n → Advances w job s (dialling i up)
    unfolding advance
    dialling-Advances i up few =
        let r = new_connection config (w.clock 0) up w.dial s.conn_pool in
        let (kept, live) =
          new_connection-IsSound fl config (w.clock 0) up w.dial s.conn_pool sound in
        elim (Option-cases r.1) [
          | inl refused ↦ record {
            result = (record s { conn_pool = r.0 }, goes_on (connecting (i + 1)));
            comes = rw (refused, advance) refl;
            sound = kept;
            fits = omega arith;
            less = omega arith;
          }
          | inr (ce, reached) ↦ record {
            result = (record s { conn_pool = r.0 }, goes_on (exchanging i ce));
            comes = rw (reached, advance) refl;
            sound = kept;
            fits = (few, (rw reached at live).0);
            less = omega arith;
          }
        ]

    exchanging-Advances :
        (i : ℕ) (ce : ConnEntry F) → i ≤ n → has_conn ce ≡ true → Advances w job s (exchanging i ce)
    unfolding advance add_exchange add_error
    exchanging-Advances i ce few has = elim (Option-cases ce.conn) [
      | inl nil ↦ cc
      | inr (c, conn) ↦
          let m = query_message dns job.domain job.rrtype in
          let x = w.exchange m c in
          let asked = attempt_exchange-conn config w.exchange m ce c conn in
          let used = add_exchange config x.rtt ce in
          let still : has_conn used ≡ true = ground arith in
          elim (Option-cases x.reply) [
            | inl lost ↦ record {
              result = (s, goes_on (dropping i (add_error used)));
              comes = rw (asked, lost, advance) refl;
              sound = sound;
              fits = (few, still);
              less = omega arith;
            }
            | inr (reply, came) ↦ record {
              result = (s, goes_on (returning used reply));
              comes = rw (asked, came, advance) refl;
              sound = sound;
              fits = still;
              less = omega arith;
            }
          ]
    ]

    pub advance-Advances : (stage : Stage F) → Fits n stage → Advances w job s stage
    unfolding advance
    advance-Advances looking fits =
        found_or _ looking hosting _ sound tt (omega arith) (omega arith) refl
    advance-Advances hosting fits =
        found_or _ hosting (connecting 0) _ sound (omega arith) (omega arith) (omega arith) refl
    advance-Advances (connecting i) fits = connecting-Advances i fits
    advance-Advances (dialling i up) fits = dialling-Advances i up fits
    advance-Advances (exchanging i ce) (few, has) = exchanging-Advances i ce few has
    advance-Advances (dropping i ce) (few, has) = record {
      result = _;
      comes = refl;
      sound =
          close_connection-IsSound fl sort_slice sort config (w.clock 0) ce s.conn_pool has sound;
      fits = omega arith;
      less = omega arith;
    }
    advance-Advances (returning ce reply) has = record {
      result = _;
      comes = refl;
      sound = add-IsSound fl sort_slice sort config (w.clock 0) ce s.conn_pool has sound;
      fits = tt;
      less = omega arith;
    }
    advance-Advances (storing r) fits = record {
      result = _;
      comes = refl;
      sound = sound;
      fits = tt;
      less = omega arith;
    }
    advance-Advances (replying r) fits = record {
      result = _;
      comes = refl;
      sound = sound;
      fits = tt;
      less = omega arith;
    }
    advance-Advances refusing fits = record {
      result = _;
      comes = refl;
      sound = sound;
      fits = tt;
      less = omega arith;
    }
