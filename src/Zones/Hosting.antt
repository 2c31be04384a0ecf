-- ===== src/Zones/Hosting.antt =====
-- Evictions from the two caches of a new server.
use funkyd.Base.{ℕ, ◌≡◌, refl, some, List, [], ◌∷◌, arith, true, ◌∙◌}
use funkyd.Base.Int.{ℤ}
use funkyd.Base.Text.{Text}
use funkyd.Base.Time.{Time}
use funkyd.Config.{Configuration}
use funkyd.Dns.{Heap}
use funkyd.Cache
use funkyd.Cache.{Response, RecordCache, TrashMan, evict, new_cache}
use funkyd.Cache.Crew.{delivered, panicked, deliver, start_cleaning_crew, start_trash_man, receive}
use funkyd.MutexServer.Handler.{new_mutex_server}
use funkyd.Zones.{add_responses}

pub trash_man-get :
    (u : ℤ → ℕ) (now : ℕ → Time) (h : Heap) (c : RecordCache) (name : Text) (qtype : ℕ)
    → (Cache.get u now h c name qtype).cache.trash_man ≡ c.trash_man
unfolding Cache.get Cache.get_found evict
trash_man-get u now h c name qtype = ground arith

pub trash_man-add_responses :
    (rs : List Response) (c : RecordCache) → (add_responses rs c).trash_man ≡ c.trash_man
unfolding add_responses Cache.add
trash_man-add_responses [] c = refl
trash_man-add_responses (r ∷ rs) c = trash_man-add_responses rs (Cache.add r c)

deliver_running :
    (r : Response) (c : RecordCache) (t : TrashMan)
    → c.trash_man ≡ some t
    → t.running ≡ true
    → (d : RecordCache) × (deliver r c ≡ delivered d)
unfolding deliver
deliver_running r c t e running = (receive r t c, ground arith)

-- In a new server, whatever responses are added to its caches, the goroutine of an eviction that
-- Get has started on the hosted cache panics, and one that Get has started on the cache hands its
-- response over to the trashman.
pub deliver-new_mutex_server :
    {F : Type 0} (u : ℤ → ℕ) (now : ℕ → Time) (h : Heap) (zero : F) (config : Configuration)
    (rs : List Response) (r : Response) (name : Text) (qtype : ℕ)
    → let s = new_mutex_server zero config h in
      (deliver r (Cache.get u now h (add_responses rs s.hosted_cache) name qtype).cache ≡ panicked)
      × ((d : RecordCache) × (deliver r
              (Cache.get u now h (add_responses rs s.cache) name qtype).cache
            ≡ delivered d))
unfolding new_mutex_server new_cache start_cleaning_crew start_trash_man deliver
deliver-new_mutex_server u now h zero config rs r name qtype =
    let s = new_mutex_server zero config h in
    (
      ground (
        arith,
        trash_man-get u now h (add_responses rs s.hosted_cache) name qtype,
        trash_man-add_responses rs s.hosted_cache,
      ),
      deliver_running r _ _
          (trash_man-get u now h (add_responses rs s.cache) name qtype
            ∙ trash_man-add_responses rs s.cache)
          refl,
    )
