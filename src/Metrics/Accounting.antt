-- ===== src/Metrics/Accounting.antt =====
-- How the metrics of a recursive query stand to its exchanges.
use mathlib.Core.List.{append-nil, append_assoc}
use funkyd.Base.{
  Option, ap, Bool, true, false, not, ◌&&◌, All, All-append, Bool-cases, ℕ, zero, suc, ◌+◌, ◌*◌,
  ◌≡◌, refl, sym, ◌∙◌, none, some, List, [], ◌∷◌, ◌++◌, arith, if◌then◌else◌, Option-cases, inl,
  inr,
}
use funkyd.Base.Int.{ℤ, pos, negsuc}
use funkyd.Base.Text.{Text, text_eq}
use funkyd.Base.Time.{Duration}
use funkyd.Base.Floats.{Floats}
use funkyd.Config.{Configuration}
use funkyd.Dns.{Msg}
use funkyd.Upstream.{Upstream}
use funkyd.ConnEntry.{ConnEntry, address_of, add_exchange, add_error}
use funkyd.ConnPool
use funkyd.ConnPool.{ConnPool, SortSlice}
use funkyd.Server.{Exchanged, DnsLib, process_results, attempt_exchange}
use funkyd.MutexServer.{
  Attempt, Outcome, answered, failed, panicked, Queried, resolved, unresolved, crashed, Environment,
  query_message, get_connection, exchange_on, attempt_query, query_loop, run_queries,
  recursive_query,
}
use funkyd.Metrics.{
  Metric, options, reused_connections_counter, recursive_query_counter, exchange_timer,
  upstream_errors_counter,
}
use funkyd.Metrics.Sizes.{labelled}
use funkyd.Metrics.Samples.{Sample, increments, observes, counted}
use funkyd.Metrics.Exchanges.{
  exchange_samples, attempt_samples, loop_samples, recursive_query_samples, exchange_made,
  attempt_made, loop_made, exchanges_made,
}

module _ {F : Type 0} where
  -- How many samples a metric gets for an address.
  unfoldable pub times : Text → Metric → List (Sample F) → ℕ
  times a m [] = 0
  times a m (s ∷ ss) =
      let rest = times a m ss in
      if text_eq (options s.metric).name (options m).name && labelled a s.labels
      then rest + 1
      else rest

  times-append :
      (a : Text) (m : Metric) (xs ys : List (Sample F))
      → times a m (xs ++ ys) ≡ times a m xs + times a m ys
  unfolding times
  times-append a m [] ys = omega arith
  times-append a m (x ∷ xs) ys = ground (arith, times-append a m xs ys)

-- The exchanges with an address, and those of them that have failed.
abbrev pub exchanged : Text → List (Text × Bool) → ℕ
exchanged a [] = 0
exchanged a ((b, came) ∷ es) = let rest = exchanged a es in if text_eq b a then rest + 1 else rest

abbrev pub failures : Text → List (Text × Bool) → ℕ
failures a [] = 0
failures a ((b, came) ∷ es) =
    let rest = failures a es in if text_eq b a && not came then rest + 1 else rest

exchanged-append :
    (a : Text) (xs ys : List (Text × Bool))
    → exchanged a (xs ++ ys) ≡ exchanged a xs + exchanged a ys
exchanged-append a [] ys = omega arith
exchanged-append a ((b, came) ∷ xs) ys = ground (arith, exchanged-append a xs ys)

failures-append :
    (a : Text) (xs ys : List (Text × Bool)) → failures a (xs ++ ys) ≡ failures a xs + failures a ys
failures-append a [] ys = omega arith
failures-append a ((b, came) ∷ xs) ys = ground (arith, failures-append a xs ys)

-- What an address gets for its exchanges.
pub record IsCounted {F : Type 0} (es : List (Text × Bool)) (ss : List (Sample F)) (a : Text)
    : Type 0 where
  pub reused : times a reused_connections_counter ss ≡ exchanged a es
  pub timed : times a exchange_timer ss ≡ exchanged a es
  pub errors : times a upstream_errors_counter ss ≡ 2 * failures a es

abbrev Counts : {F : Type 0} → List (Text × Bool) → List (Sample F) → Type 0
Counts es ss = (a : Text) → IsCounted es ss a

abbrev pub AllFailed : List (Text × Bool) → Type 0
AllFailed = All (λ e. e.1 ≡ false)

-- The last exchange, with the address, has succeeded, and no other.
abbrev pub LastSucceeded : Text → List (Text × Bool) → Type 0
LastSucceeded address es =
    (before : List (Text × Bool)) × (es ≡ before ++ (address, true) ∷ []) × AllFailed before

abbrev CountedLoop : {F : Type 0} → Outcome F → List (Text × Bool) → List (Sample F) → Type 0
CountedLoop (answered p ce reply) es ss = Counts es ss × LastSucceeded (address_of ce) es
CountedLoop (failed p) es ss = Counts es ss × AllFailed es
CountedLoop panicked es ss = Unit

abbrev pub CountedQuery : {F : Type 0} → Queried F → List (Text × Bool) → List (Sample F) → Type 0
CountedQuery (resolved p r address) es ss = Counts es ss × LastSucceeded address es
CountedQuery (unresolved p) es ss = Counts es ss × AllFailed es
CountedQuery crashed es ss = Unit

module _ {F : Type 0} (d : Duration) (c a : Text) where
  -- A connection is got, and the exchange on it fails, or not.
  got_and_timed : List (Sample F)
  got_and_timed =
      counted reused_connections_counter c
      ∷ record { metric = exchange_timer; labels = c ∷ []; change = observes d }
      ∷ []

  lost_counts :
      IsCounted {F = F}
        ((c, false) ∷ [])
        (got_and_timed
          ++ counted upstream_errors_counter c ∷ counted upstream_errors_counter c ∷ [])
        a
  unfolding times options text_eq got_and_timed
  lost_counts = elim (Bool-cases (text_eq c a)) [
    | inl same ↦ record { reused = rw same refl; timed = rw same refl; errors = rw same refl }
    | inr other ↦ record { reused = rw other refl; timed = rw other refl; errors = rw other refl }
  ]

  came_counts : IsCounted {F = F} ((c, true) ∷ []) got_and_timed a
  unfolding times options text_eq got_and_timed
  came_counts = elim (Bool-cases (text_eq c a)) [
    | inl same ↦ record { reused = rw same refl; timed = rw same refl; errors = rw same refl }
    | inr other ↦ record { reused = rw other refl; timed = rw other refl; errors = rw other refl }
  ]

attempt_exchange-address_of :
    {F : Type 0} (config : Configuration) (exchange : Msg → ℕ → Exchanged) (m : Msg)
    (ce ce' : ConnEntry F) (o : Option Msg)
    → attempt_exchange config exchange m ce ≡ some (ce', o)
    → address_of ce ≡ address_of ce'
unfolding attempt_exchange add_exchange add_error address_of
attempt_exchange-address_of config exchange m ce ce' o e = ground arith

append-IsCounted :
    {F : Type 0} (es fs : List (Text × Bool)) (xs ys : List (Sample F)) (a : Text)
    → IsCounted es xs a
    → IsCounted fs ys a
    → IsCounted (es ++ fs) (xs ++ ys) a
append-IsCounted es fs xs ys a vx vy = record {
  reused = omega (
    arith,
    vx.reused,
    vy.reused,
    times-append a reused_connections_counter xs ys,
    exchanged-append a es fs,
  );
  timed =
      omega
        (arith, vx.timed, vy.timed, times-append a exchange_timer xs ys, exchanged-append a es fs);
  errors = omega (
    arith,
    vx.errors,
    vy.errors,
    times-append a upstream_errors_counter xs ys,
    failures-append a es fs,
  );
}

append-LastSucceeded :
    (address : Text) (es fs : List (Text × Bool))
    → AllFailed es
    → LastSucceeded address fs
    → LastSucceeded address (es ++ fs)
append-LastSucceeded address es fs h (before, e, k) = (
  es ++ before,
  ap (λ l. es ++ l) e ∙ sym (append_assoc es before ((address, true) ∷ [])),
  All-append (λ e. e.1 ≡ false) es before h k,
)

-- After a failed attempt, whatever comes of the others.
append-CountedLoop :
    {F : Type 0} (o : Outcome F) (es fs : List (Text × Bool)) (xs ys : List (Sample F))
    → Counts es xs × AllFailed es
    → CountedLoop o fs ys
    → CountedLoop o (es ++ fs) (xs ++ ys)
append-CountedLoop (answered p ce reply) es fs xs ys (v, h) (w, last) = (
  λ a. append-IsCounted es fs xs ys a (v a) (w a),
  append-LastSucceeded (address_of ce) es fs h last,
)
append-CountedLoop (failed p) es fs xs ys (v, h) (w, k) =
    (λ a. append-IsCounted es fs xs ys a (v a) (w a), All-append (λ e. e.1 ≡ false) es fs h k)
append-CountedLoop panicked es fs xs ys v w = tt

module _ {F : Type 0} (fl : Floats F) (sort_slice : SortSlice (Upstream F)) (config : Configuration)
    (elapsed : Text → Duration) where
  exchange_counts :
      (m : Msg) (a : Attempt) (p : ConnPool F) (ce : ConnEntry F)
      → CountedLoop
          (exchange_on fl sort_slice config m a p ce)
          (exchange_made fl sort_slice config m a ce)
          (counted reused_connections_counter (address_of ce)
            ∷ exchange_samples fl sort_slice config elapsed m a ce)
  unfolding exchange_on exchange_made exchange_samples got_and_timed
  exchange_counts m a p ce =
      let c = address_of ce in
      elim (Option-cases (attempt_exchange config a.exchange m ce)) [
        | inl nil ↦ rw (nil, exchange_on, exchange_made, exchange_samples) tt
        | inr ((ce', none), lost) ↦
            rw (lost, exchange_on, exchange_made, exchange_samples)
              (lost_counts (elapsed c) c, (refl, tt))
        | inr ((ce', some reply), came) ↦
            let same = attempt_exchange-address_of config a.exchange m ce ce' (some reply) came in
            rw (came, exchange_on, exchange_made, exchange_samples)
              (came_counts (elapsed c) c, ([], ap (λ c. (c, true) ∷ []) same, tt))
      ]

  attempt_counts :
      (m : Msg) (a : Attempt) (p : ConnPool F)
      → CountedLoop
          (attempt_query fl sort_slice config m a p)
          (attempt_made fl sort_slice config m a p)
          (attempt_samples fl sort_slice config elapsed m a p)
  unfolding attempt_query attempt_made attempt_samples times
  attempt_counts m a p = elim (Option-cases (get_connection fl sort_slice config a p)) [
    | inl empty ↦ rw (empty, attempt_query, attempt_made, attempt_samples) tt
    | inr ((p', none), refused) ↦
        rw (refused, attempt_query, attempt_made, attempt_samples)
          (λ b. record { reused = refl; timed = refl; errors = refl }, tt)
    | inr ((p', some ce), got) ↦
        rw (got, attempt_query, attempt_made, attempt_samples) (exchange_counts m a p' ce)
  ]

  loop_counts :
      (m : Msg) (attempts : ℕ → Attempt) (i rounds : ℕ) (p : ConnPool F)
      → CountedLoop
          (query_loop fl sort_slice config m attempts i rounds p)
          (loop_made fl sort_slice config m attempts i rounds p)
          (loop_samples fl sort_slice config elapsed m attempts i rounds p)
  unfolding query_loop loop_made loop_samples times
  loop_counts m attempts i zero p = (λ b. record { reused = refl; timed = refl; errors = refl }, tt)
  loop_counts m attempts i (suc rounds) p =
      go (attempt_query fl sort_slice config m (attempts i) p)
        (attempt_made fl sort_slice config m (attempts i) p)
        (attempt_samples fl sort_slice config elapsed m (attempts i) p)
        (attempt_counts m (attempts i) p) (λ p'. loop_counts m attempts (i + 1) rounds p')
    where
      go :
          (o : Outcome F) (es : List (Text × Bool)) (ss : List (Sample F))
          → CountedLoop o es ss
          → ((p' : ConnPool F)
              → CountedLoop
                  (query_loop fl sort_slice config m attempts (i + 1) rounds p')
                  (loop_made fl sort_slice config m attempts (i + 1) rounds p')
                  (loop_samples fl sort_slice config elapsed m attempts (i + 1) rounds p'))
          → CountedLoop
              (elim o [
                | answered p' ce reply ↦ answered p' ce reply
                | failed p' ↦ query_loop fl sort_slice config m attempts (i + 1) rounds p'
                | panicked ↦ panicked
              ])
              (es ++ elim o [
                | answered p' ce reply ↦ []
                | failed p' ↦ loop_made fl sort_slice config m attempts (i + 1) rounds p'
                | panicked ↦ []
              ])
              (ss ++ elim o [
                | answered p' ce reply ↦ []
                | failed p' ↦ loop_samples fl sort_slice config elapsed m attempts (i + 1) rounds p'
                | panicked ↦ []
              ])
      go (answered p' ce reply) es ss v again = rw (append-nil es, append-nil ss) v
      go (failed p') es ss v again =
          append-CountedLoop (query_loop fl sort_slice config m attempts (i + 1) rounds p') es _ ss
            _ v (again p')
      go panicked es ss v again = tt

  run_counts :
      (m : Msg) (attempts : ℕ → Attempt) (p : ConnPool F) (retries : ℤ)
      → CountedLoop
          (elim retries [
            | pos n ↦ query_loop fl sort_slice config m attempts 0 (suc n) p
            | negsuc n ↦ panicked
          ])
          (elim retries [
            | pos n ↦ loop_made fl sort_slice config m attempts 0 (suc n) p
            | negsuc n ↦ []
          ])
          (elim retries [
            | pos n ↦ loop_samples fl sort_slice config elapsed m attempts 0 (suc n) p
            | negsuc n ↦ []
          ])
  run_counts m attempts p (pos n) = loop_counts m attempts 0 (suc n) p
  run_counts m attempts p (negsuc n) = tt

  -- The counter of the queries counts for no address.
  headed :
      (es : List (Text × Bool)) (ss : List (Sample F))
      → Counts es ss
      → Counts es
          (record { metric = recursive_query_counter; labels = []; change = increments } ∷ ss)
  unfolding times options text_eq
  headed es ss v a = record { reused = (v a).reused; timed = (v a).timed; errors = (v a).errors }

  -- If RecursiveQuery ends, with a response or an error, then for each address
  -- ReusedConnectionsCounter has gone up by one, and ExchangeTimer was observed once, for each
  -- exchange that was made with it, whether the connection was cached or had just been dialled, and
  -- UpstreamErrorsCounter has gone up by two for each exchange with it that failed; with a
  -- response, the last exchange made was with the address that is returned and succeeded, and all
  -- before it failed; with an error, all failed.
  pub recursive_query-CountedQuery :
      (dns : DnsLib) (w : Environment) (p : ConnPool F) (domain : Text) (rrtype : ℕ)
      → CountedQuery
          (recursive_query fl sort_slice config dns w p domain rrtype)
          (exchanges_made fl sort_slice config dns w p domain rrtype)
          (recursive_query_samples fl sort_slice config elapsed dns w p domain rrtype)
  unfolding recursive_query run_queries exchanges_made recursive_query_samples
  recursive_query-CountedQuery dns w p domain rrtype =
      let m = query_message dns domain rrtype in
      go (run_queries fl sort_slice config m w.attempt p) _ _
        (run_counts m w.attempt p config.upstream_retries)
    where
      go :
          (o : Outcome F) (es : List (Text × Bool)) (ss : List (Sample F))
          → CountedLoop o es ss
          → CountedQuery
              (elim o [
                | answered p' ce reply ↦
                    resolved
                      (ConnPool.add fl sort_slice config w.add_clock ce p').0
                      (process_results w.reply_clock reply domain rrtype)
                      (address_of ce)
                | failed p' ↦ unresolved p'
                | panicked ↦ crashed
              ])
              es
              (record { metric = recursive_query_counter; labels = []; change = increments } ∷ ss)
      go (answered p' ce reply) es ss (v, last) = (headed es ss v, last)
      go (failed p') es ss (v, all) = (headed es ss v, all)
      go panicked es ss v = tt
