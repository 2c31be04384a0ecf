-- ===== src/Cache/Crew.antt =====
-- cache.go: the trashman and the janitor. A channel that is not buffered makes each hand-over one
-- step of the receiving loop.
use funkyd.Base.{
  ℕ, ◌≡◌, Bool, true, false, not, ◌&&◌, none, some, List, [], ◌∷◌, ◌++◌, leb, if◌then◌else◌, length,
}
use funkyd.Base.Int.{ℤ, pos, negsuc, is_zero}
use funkyd.Base.Text.{Text}
use funkyd.Base.Time.{Time}
use funkyd.Base.Map.{lookup, insert, values, is_some}
use funkyd.Dns.{Heap}
use funkyd.Cache.{Response, TrashMan, RecordCache, format_key, add, remove_slice, get, clean}

-- len(..) >= b, for an int b
unfoldable pub reaches : ℕ → ℤ → Bool
reaches n (pos b) = leb b n
reaches n (negsuc b) = true

unfoldable pub responses_queued : TrashMan → ℕ
responses_queued t = length t.responses

-- A response whose key is queued already changes nothing.
unfoldable pub add_response : Response → TrashMan → TrashMan
add_response r t =
    if is_some (lookup (format_key r) t.responses)
    then t
    else record t { responses = insert (format_key r) r t.responses }

unfoldable pub flush_responses : TrashMan → RecordCache → RecordCache
flush_responses t c = record (remove_slice (values t.responses) c) {
  trash_man = some (record t { responses = [] });
}

-- case response := <-t.Channel
unfoldable pub receive : Response → TrashMan → RecordCache → RecordCache
unfolding add_response responses_queued
receive r t c =
    let t' = add_response r t in
    if reaches (responses_queued t') t'.eviction_batch_size && not t'.paused
    then flush_responses t' c
    else record c { trash_man = some t' }

-- case p := <-t.pauseChannel
unfoldable pub set_paused : Bool → TrashMan → RecordCache → RecordCache
unfolding responses_queued
set_paused p t c =
    let t' : TrashMan = record t { paused = p } in
    if not p && reaches (responses_queued t') t'.eviction_batch_size
    then flush_responses t' c
    else record c { trash_man = some t' }

unfoldable pub start_trash_man : TrashMan → TrashMan
start_trash_man t = record t { running = true }

-- The trashman that StartCleaningCrew makes.
unfoldable pub new_trash_man : ℤ → TrashMan
new_trash_man batch = record {
  running = false;
  responses = [];
  eviction_batch_size = batch;
  paused = false;
}

-- The argument is config.EvictionBatchSize.
unfoldable pub start_cleaning_crew : ℤ → RecordCache → RecordCache
unfolding start_trash_man new_trash_man
start_cleaning_crew batch c = elim c.trash_man [
  | none ↦ record c {
    trash_man = some (start_trash_man (new_trash_man batch));
    janitor_running = true;
  }
  | some t ↦ record c { trash_man = some (start_trash_man t); janitor_running = true }
]

-- The goroutine of an eviction, sending on the trashman's channel. With no trashman it panics.
pub data Delivery : Type 0 where
  delivered : RecordCache → Delivery
  blocked : Delivery
  panicked : Delivery

unfoldable pub deliver : Response → RecordCache → Delivery
deliver r c = elim c.trash_man [
  | none ↦ panicked
  | some t ↦ if t.running then delivered (receive r t c) else blocked
]

-- The janitor's interval in milliseconds: config.CleanInterval, or 1000. The ticker panics
-- on one that is negative.
unfoldable pub clean_interval : ℤ → ℤ
clean_interval n = if is_zero n then pos 1000 else n

-- What can happen to a cache: calls of its clients and moves of its crew.
pub data Step (uint32_seconds : ℤ → ℕ) (c d : RecordCache) : Type 0 where
  adds : (r : Response) → d ≡ add r c → Step uint32_seconds c d
  gets :
      (now : ℕ → Time) (h : Heap) (name : Text) (qtype : ℕ)
      → d ≡ (get uint32_seconds now h c name qtype).cache
      → Step uint32_seconds c d
  removes : (rs : List Response) → d ≡ remove_slice rs c → Step uint32_seconds c d
  -- A tick of the janitor's timer.
  cleans :
      (now : ℕ → Time) (h : Heap)
      → c.janitor_running ≡ true
      → d ≡ (clean now h c).0
      → Step uint32_seconds c d
  starts : (batch : ℤ) → d ≡ start_cleaning_crew batch c → Step uint32_seconds c d
  -- The scheduler picks one of the waiting goroutines.
  delivers :
      (xs : List Response) (r : Response) (ys : List Response)
      → c.evictions ≡ xs ++ r ∷ ys
      → deliver r (record c { evictions = xs ++ ys }) ≡ delivered d
      → Step uint32_seconds c d
  pauses :
      (p : Bool) (t : TrashMan)
      → c.trash_man ≡ some t
      → t.running ≡ true
      → d ≡ set_paused p t c
      → Step uint32_seconds c d
  -- StopCleaningCrew stops the trashman first.
  stops :
      (t : TrashMan)
      → c.trash_man ≡ some t
      → d ≡ record c { trash_man = some (record t { running = false }); janitor_running = false }
      → Step uint32_seconds c d

pub data Reach (uint32_seconds : ℤ → ℕ) (c : RecordCache) : RecordCache → Type 0 where
  here : Reach uint32_seconds c c
  next :
      {d e : RecordCache}
      → Reach uint32_seconds c d
      → Step uint32_seconds d e
      → Reach uint32_seconds c e
