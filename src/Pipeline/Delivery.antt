-- ===== src/Pipeline/Delivery.antt =====
-- Each client is answered once at most.
use mathlib.Core.List.{
  Perm, filter_map, filter_map-append, filter_map-cons-none, filter_map-cons-some, map, perm_middle,
}
use mathlib.Core.List.Perm
use funkyd.Base.{ℕ, ◌≡◌, refl, Option, none, some, [], ◌∷◌, ◌++◌, ◌∙◌, or_cons}
use funkyd.Base.Int.{ℤ}
use funkyd.Base.Floats.{Floats}
use funkyd.Config.{Configuration}
use funkyd.Dns.{Heap}
use funkyd.Upstream.{Upstream}
use funkyd.ConnPool.{ConnPool, SortSlice}
use funkyd.Cache.{RecordCache}
use funkyd.Server.{DnsLib}
use funkyd.Pipeline.{
  Query, Channel, Sends, adding, closing, cacher_inbound, connector_inbound, querier_inbound,
  finisher_inbound, new_pipeline, dispatch, no_query,
}
use funkyd.Pipeline.Workers.{Write, cache_step, handle_query}
use funkyd.Pipeline.System.{
  System, start_system, Gives, from_handler, from_cacher, from_connector, from_querier,
  from_finisher, Step, arrives, caches, connects, adds, closes, queries, purges, finishes,
  cancels_cacher, cancels_connector, cancels_querier, Reach, here, next,
}
use funkyd.Pipeline.Clients.{
  client, clients, pending, Answered, Gives-pending, Gives-idle, clients-cache_step,
  clients-connect, clients-query_step, clients-finish_step, put_cacher, put_connector, put_querier,
  put_finisher,
}

module _ {F : Type 0} where
  clients-perm : {xs ys : Sends F} → Perm xs ys → Perm (clients xs) (clients ys)
  clients-perm p = Perm.filter_map client p

  -- A query on its way: the client waits for the receiver's sends instead.
  handed_on :
      (s r : System F) (ch : Channel) (q : Query F) (sends after : Sends F)
      → Perm (pending s) ((some ch, q) ∷ pending r)
      → client (some ch, q) ≡ q.writer
      → clients sends ≡ or_cons q.writer []
      → Perm after (sends ++ pending r)
      → Perm (clients after) (clients (pending s))
  handed_on s r ch q sends after given to_client of_sends put =
      Perm.trans
        (Perm.trans (clients-perm put)
          (rw (filter_map-append client sends (pending r), of_sends) (same q.writer refl)))
        (Perm.symm (clients-perm given))
    where
      same :
          (w : Option ℕ)
          → q.writer ≡ w
          → Perm (or_cons w [] ++ clients (pending r)) (clients ((some ch, q) ∷ pending r))
      same none e =
          rw (filter_map-cons-none client (some ch, q) (pending r) (to_client ∙ e)) (Perm.refl _)
      same (some w) e =
          rw (filter_map-cons-some client (some ch, q) (pending r) (to_client ∙ e)) (Perm.refl _)

  Gives-history :
      (s r : System F) (ch : Channel) (q : Query F)
      → Gives s ch q r
      → (r.writes ≡ s.writes) × (r.requests ≡ s.requests)
  Gives-history s r ch q (from_handler xs ys e f) = rw f (refl, refl)
  Gives-history s r ch q (from_cacher ys e f) = rw f (refl, refl)
  Gives-history s r ch q (from_connector ys e f) = rw f (refl, refl)
  Gives-history s r ch q (from_querier ys e f) = rw f (refl, refl)
  Gives-history s r ch q (from_finisher ys e f) = rw f (refl, refl)

  -- A step that writes nothing, and after which the same clients wait.
  same_clients :
      (s r : System F) (ch : Channel) (q : Query F) (after : Sends F)
      → Gives s ch q r
      → Perm (clients after) (clients (pending s))
      → Answered s
      → Perm (clients after ++ map (λ (w : Write). w.0) r.writes) r.requests
  same_clients s r ch q after g p a =
      let (writes, requests) = Gives-history s r ch q g in
      rw (writes, requests) (Perm.trans (Perm.append_right (map (λ (w : Write). w.0) s.writes) p) a)

  -- What goes back to the connector has been answered.
  given_back :
      (s r : System F) (ch : Channel) (q : Query F)
      → Gives s ch q r
      → client (some ch, q) ≡ none
      → Answered s
      → Perm (clients (pending r) ++ map (λ (w : Write). w.0) r.writes) r.requests
  given_back s r ch q g none_waits a =
      same_clients s r ch q (pending r) g
        (Perm.symm (
          rw (filter_map-cons-none client (some ch, q) (pending r) none_waits) at
            (clients-perm (Gives-pending s r ch q g))))
        a

  answered :
      (s r : System F) (q : Query F) (write : Write) (sends after : Sends F)
      → Gives s finisher_inbound q r
      → (clients sends ≡ []) × (q.writer ≡ some write.0)
      → Perm after (sends ++ pending r)
      → Answered s
      → Perm (clients after ++ (write.0 ∷ map (λ (w : Write). w.0) r.writes)) r.requests
  answered s r q write sends after g (no_sends, to) put a =
      let (writes, requests) = Gives-history s r finisher_inbound q g in
      let waits =
        rw (filter_map-cons-some client (some finisher_inbound, q) (pending r) to) at
          (clients-perm (Gives-pending s r finisher_inbound q g)) in
      let kept = rw (filter_map-append client sends (pending r), no_sends) at (clients-perm put) in
      rw (writes, requests)
        (Perm.trans (perm_middle (clients after) _) (
          Perm.trans
            (Perm.append_right (map (λ (w : Write). w.0) s.writes)
              (Perm.trans (Perm.cons write.0 kept) (Perm.symm waits)))
            a))

module _ {F : Type 0} (fl : Floats F) (sort_slice : SortSlice (Upstream F)) (config : Configuration)
    (u : ℤ → ℕ) (dns : DnsLib) where
  Step-Answered : (s t : System F) → Step fl sort_slice config u dns s t → Answered s → Answered t
  unfolding handle_query dispatch new_pipeline no_query filter_map
  Step-Answered s t (arrives request writer e) a = rw e (Perm.cons writer a)
  Step-Answered s t (caches now q r idle on g e) a =
      let free = (Gives-idle s r cacher_inbound q g).0 in
      let sends = (cache_step u dns new_pipeline.cacher now r.heap r.cache q).2 in
      rw e (
        same_clients s r cacher_inbound q (pending (record r { cacher = sends })) g
          (handed_on s r cacher_inbound q sends _ (Gives-pending s r cacher_inbound q g) refl
            (clients-cache_step u dns now r.heap r.cache q) (put_cacher r sends (free idle)))
          a)
  Step-Answered s t (connects now network q r p sends idle on g e f) a =
      let free = (Gives-idle s r connector_inbound q g).1 in
      rw f (
        same_clients s r connector_inbound q (pending (record r { connector = sends })) g
          (handed_on s r connector_inbound q sends _ (Gives-pending s r connector_inbound q g) refl
            (clients-connect fl config now network r.pool p q sends e)
            (put_connector r sends (free idle)))
          a)
  Step-Answered s t (adds now q r p idle on g e f) a = rw f (given_back s r adding q g refl a)
  Step-Answered s t (closes now q r p idle on g e f) a = rw f (given_back s r closing q g refl a)
  Step-Answered s t (queries exchange q r sends idle on g e f) a =
      let free = (Gives-idle s r querier_inbound q g).2 in
      rw f (
        same_clients s r querier_inbound q (pending (record r { querier = sends })) g
          (handed_on s r querier_inbound q sends _ (Gives-pending s r querier_inbound q g) refl
            (clients-query_step config dns exchange q sends e) (put_querier r sends (free idle)))
          a)
  Step-Answered s t (purges now xs ce ys e f) a = rw f a
  Step-Answered s t (cancels_cacher idle on e) a = rw e a
  Step-Answered s t (cancels_connector idle on e) a = rw e a
  Step-Answered s t (cancels_querier idle on e) a = rw e a
  Step-Answered s t (finishes q r write sends idle g e f) a =
      let free = (Gives-idle s r finisher_inbound q g).3 in
      rw f (
        answered s r q write sends (pending (record r { finisher = sends })) g
          (clients-finish_step q write sends e) (put_finisher r sends (free idle)) a)

  -- In each state that the workers of the pipeline reach from their start: the clients whose
  -- queries are still on their way to a reply, with those that a reply has been written to, are the
  -- clients of all requests, each as often as it has asked.
  pub Reach-Answered :
      (p : ConnPool F) (h : Heap) (c : RecordCache) (s : System F)
      → Reach fl sort_slice config u dns (start_system p h c) s
      → Answered s
  unfolding filter_map
  Reach-Answered p h c s here = Perm.refl []
  Reach-Answered p h c s (next {t} r m) = Step-Answered t s m (Reach-Answered p h c t r)
