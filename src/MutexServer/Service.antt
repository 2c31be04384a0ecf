-- ===== src/MutexServer/Service.antt =====
-- That no request is left without a reply.
use mathlib.Core.List.{Perm}
use funkyd.Base.{
  ℕ, suc, true, ◌≡◌, refl, sym, ap, subst, inl, inr, some, List, [], ◌∷◌, arith, All, ◌∙◌,
  Option-cases, length, map,
}
use funkyd.Base.Int.{ℤ, pos}
use funkyd.Base.Floats.{Floats}
use funkyd.Base.Perms.{is_cons}
use funkyd.Config.{Configuration}
use funkyd.Dns.{Msg, Heap, Question}
use funkyd.Upstream.{Upstream}
use funkyd.Cache.{RecordCache}
use funkyd.ConnPool.{SortSlice}
use funkyd.ConnPool.Sorting.{IsSort}
use funkyd.ConnPool.Soundness.{IsSound}
use funkyd.Server.{DnsLib, first_question}
use funkyd.MutexServer.{Environment}
use funkyd.MutexServer.Handler.{MutexServer, wrote, handle_dns, new_mutex_server}
use funkyd.MutexServer.Startup.{is_name, new_mutex_server-IsSound}
use funkyd.MutexServer.Replies.{handle_dns-IsSound}
use funkyd.MutexServer.Concurrency.{
  Semaphore, IsSemaphore, concurrency, Request, Front, new_front, Serves, receives, acquires, ends,
  Run, here, next,
}
use funkyd.MutexServer.Capacity.{IsFair, Serves-IsFair, Run-IsFair, new_front-IsFair}
use funkyd.MutexServer.Runs.{Run-append, Meets, Meets-append}

-- SetReply takes the question over.
abbrev pub TakesQuestion : DnsLib → Type 0
TakesQuestion dns =
    (m : Msg) (q : Question)
    → first_question m ≡ some q
    → (q' : Question) × (first_question (dns.set_reply m) ≡ some q')

abbrev pub IsAsked : Request → Type 0
IsAsked r = (q : Question) × (first_question r.1 ≡ some q)

wrote-injective :
    {F : Type 0} (s t : MutexServer F) (m n : Msg) → wrote s m ≡ wrote t n → (s ≡ t) × (m ≡ n)
wrote-injective s t m n e = ground arith

module _ {F S : Type 0} (sem : Semaphore S) (laws : IsSemaphore sem) (fl : Floats F)
    (sort_slice : SortSlice (Upstream F)) (sort : IsSort fl sort_slice) (config : Configuration)
    (retries : ℕ) (counted : config.upstream_retries ≡ pos retries) (u : ℤ → ℕ) (dns : DnsLib)
    (takes : TakesQuestion dns) where
  Serves-IsSound :
      (f g : Front F S)
      → Serves sem fl sort_slice config u dns f g
      → IsSound f.server.conn_pool
      → IsSound g.server.conn_pool
  unfolding handle_dns
  Serves-IsSound f g (receives r named asked e) v = rw e v
  Serves-IsSound f g (acquires xs r ys s e got k) v = rw k v
  Serves-IsSound f g (ends env xs r ys server reply e done k) v =
      elim (Option-cases (first_question (dns.set_reply r.1))) [
        | inl unnamed ↦ ground arith
        | inr (named, a) ↦ elim (Option-cases (first_question r.1)) [
          | inl unasked ↦ ground arith
          | inr (asked, b) ↦
              let (s, m, same, sound) =
                handle_dns-IsSound fl sort_slice sort config retries counted dns u env f.server r.1
                  asked named b a v in
              rw k (
                subst (λ (t : MutexServer F). IsSound t.conn_pool)
                  (wrote-injective s server m reply (sym same ∙ done)).0 sound)
        ]
      ]

  Run-IsSound :
      (f g : Front F S)
      → Run sem fl sort_slice config u dns f g
      → IsSound f.server.conn_pool
      → IsSound g.server.conn_pool
  Run-IsSound f g here v = v
  Run-IsSound f g (next {g = h} r m) v = Serves-IsSound h g m (Run-IsSound f h r v)

  module _ (room : ℕ) (env : Front F S → Environment) where
    -- What holds of a state that can go on until it is idle.
    record IsReady (f : Front F S) : Type 0 where
      fair : IsFair sem laws fl sort_slice config u dns (pos (suc room)) f
      sound : IsSound f.server.conn_pool
      queue_asked : All IsAsked f.queued
      running_asked : All IsAsked f.running

    -- A later state in which nothing runs.
    record IsDrained (f : Front F S) : Type 0 where
      last : Front F S
      run : Run sem fl sort_slice config u dns f last
      meets : Meets sem fl sort_slice config u dns env run
      ready : IsReady last
      none_running : last.running ≡ []
      same_queue : last.queued ≡ f.queued
      same_received : last.received ≡ f.received

    drain : (rs : List Request) (f : Front F S) → f.running ≡ rs → IsReady f → IsDrained f
    drain [] f e v = record {
      last = f;
      run = here;
      meets = tt;
      ready = v;
      none_running = e;
      same_queue = refl;
      same_received = refl;
    }
    drain (r ∷ rs) f e v =
        let asks : All IsAsked (r ∷ rs) = subst (All IsAsked) e v.running_asked in
        let (asked, a) = asks.0 in
        let (named, b) = takes r.1 asked a in
        let (server, reply, done, sound) =
          handle_dns-IsSound fl sort_slice sort config retries counted dns u (env f) f.server r.1
            asked named a b v.sound in
        let g : Front F S = record f {
          server = server;
          sem = sem.release f.sem;
          running = rs;
          replies = (r.0, reply) ∷ f.replies;
        } in
        let step = ends (env f) [] r rs server reply e done refl in
        let d = drain rs g refl (record {
          fair = Serves-IsFair sem laws fl sort_slice config u dns _ f g step v.fair;
          sound = sound;
          queue_asked = v.queue_asked;
          running_asked = asks.1;
        }) in
        record {
          last = d.last;
          run = Run-append sem fl sort_slice config u dns f g d.last (next here step) d.run;
          meets =
              Meets-append sem fl sort_slice config u dns env f g d.last (next here step) d.run
                (tt, refl) d.meets;
          ready = d.ready;
          none_running = d.none_running;
          same_queue = d.same_queue;
          same_received = d.same_received;
        }

    -- A later state in which nothing waits either.
    record IsServed (f : Front F S) : Type 0 where
      last : Front F S
      run : Run sem fl sort_slice config u dns f last
      meets : Meets sem fl sort_slice config u dns env run
      ready : IsReady last
      none_running : last.running ≡ []
      none_queued : last.queued ≡ []
      same_received : last.received ≡ f.received

    serve_queue : (rs : List Request) (f : Front F S) → f.queued ≡ rs → IsReady f → IsServed f
    serve_queue [] f e v =
        let d = drain f.running f refl v in
        record {
          last = d.last;
          run = d.run;
          meets = d.meets;
          ready = d.ready;
          none_running = d.none_running;
          none_queued = d.same_queue ∙ e;
          same_received = d.same_received;
        }
    serve_queue (r ∷ rs) f e v =
        let d = drain f.running f refl v in
        let asks : All IsAsked (r ∷ rs) =
          subst (All IsAsked) (d.same_queue ∙ e) d.ready.queue_asked in
        let empty : laws.held d.last.sem ≡ 0 = d.ready.fair.counted ∙ ap length d.none_running in
        let (s, got) =
          laws.acquire_free d.last.sem (suc room) d.ready.fair.sized (omega (arith, empty)) in
        let g : Front F S = record d.last { sem = s; queued = rs; running = r ∷ d.last.running } in
        let step = acquires [] r rs s (d.same_queue ∙ e) got refl in
        let t = serve_queue rs g refl (record {
          fair = Serves-IsFair sem laws fl sort_slice config u dns _ d.last g step d.ready.fair;
          sound = d.ready.sound;
          queue_asked = asks.1;
          running_asked = (asks.0, d.ready.running_asked);
        }) in
        record {
          last = t.last;
          run = Run-append sem fl sort_slice config u dns f g t.last (next d.run step) t.run;
          meets =
              Meets-append sem fl sort_slice config u dns env f g t.last (next d.run step) t.run
                d.meets t.meets;
          ready = t.ready;
          none_running = t.none_running;
          none_queued = t.none_queued;
          same_received = t.same_received ∙ d.same_received;
        }

    -- Where sort.Slice sorts, the semaphore behaves as documented, SetReply takes the question
    -- over, the number of retries is not negative, the concurrency is positive and the
    -- configuration names at least one upstream, and none with an empty name: from each state of
    -- the new server that is reached, in which the requests that wait or run have a question, there
    -- is, whatever the network and the clock answer in each state, a run in which each query has
    -- the answers of the state that it runs in, and after which none waits or runs, and the clients
    -- of the replies are the clients of the requests received.
    pub Run-completes :
        (zero : F) (heap : Heap) (hosted : RecordCache) (max_procs : ℕ) (f : Front F S)
        → All (λ n. is_name n ≡ true) config.upstreams
        → is_cons config.upstreams ≡ true
        → concurrency max_procs config ≡ pos (suc room)
        → Run sem fl sort_slice config u dns
            (new_front sem max_procs config
              (record (new_mutex_server zero config heap) { hosted_cache = hosted }))
            f
        → All IsAsked f.queued
        → All IsAsked f.running
        → (g : Front F S) × (run : Run sem fl sort_slice config u dns f g) × Meets sem fl sort_slice
            config u dns env run
          × (g.queued ≡ [])
          × (g.running ≡ [])
          × (g.received ≡ f.received)
          × Perm (map (λ (r : Request). r.0) g.replies) (map (λ (r : Request). r.0) g.received)
    unfolding new_front
    Run-completes zero heap hosted max_procs f names some_name limit r queue_asked running_asked =
        let server : MutexServer F = record (new_mutex_server zero config heap) {
          hosted_cache = hosted;
        } in
        let t = serve_queue f.queued f refl (record {
          fair =
              Run-IsFair sem laws fl sort_slice config u dns (pos (suc room)) _ f
                (new_front-IsFair sem laws fl sort_slice config u dns (pos (suc room)) max_procs
                  server limit)
                r;
          sound = Run-IsSound _ f r (new_mutex_server-IsSound zero config heap names some_name);
          queue_asked = queue_asked;
          running_asked = running_asked;
        }) in
        (
          t.last,
          t.run,
          t.meets,
          t.none_queued,
          t.none_running,
          t.same_received,
          rw (t.none_queued, t.none_running) at t.ready.fair.answered,
        )
