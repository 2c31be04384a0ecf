-- ===== src/Cache/Eviction.antt =====
-- What the cleaning crew removes: Clean, and the flush of the trashman.
use mathlib.Core.List.{reverse, reverse-cons, append_assoc}
use funkyd.Base.{
  ℕ, ◌+◌, ◌≡◌, refl, Bool, true, false, none, some, List, [], ◌∷◌, ◌++◌, arith, All, if◌then◌else◌,
  length,
}
use funkyd.Base.Text.{Text}
use funkyd.Base.Time.{Time}
use funkyd.Base.Map.{Map, lookup, is_some, values, lookup-delete}
use funkyd.Dns.{Heap, Ref}
use funkyd.Cache.{
  Response, TrashMan, RecordCache, format_key, add, remove, remove_slice, evict, is_expired,
  any_expired, clean, clean_entries,
}
use funkyd.Cache.Crew.{flush_responses}
use funkyd.Cache.Keys.{IsKeyed}
use funkyd.Cache.Invariant.{IsStore}

-- Some record of the response has outlived its TTL.
abbrev pub exists {ℓ} : {A : Type ℓ} → (A → Bool) → List A → Bool
exists f [] = false
exists f (x ∷ xs) = if f x then true else exists f xs

abbrev pub select {ℓ} : {A : Type ℓ} → (A → Bool) → List A → List A
select f [] = []
select f (x ∷ xs) = if f x then x ∷ select f xs else select f xs

abbrev pub has_expired : Heap → Time → Response → Bool
has_expired h t r = exists (is_expired h r t) r.entry.answer

any_expired-exists :
    (h : Heap) (t : Time) (r : Response) (i : ℕ) (ps : List Ref)
    → any_expired (λ _. t) h r i ps ≡ exists (is_expired h r t) ps
unfolding any_expired
any_expired-exists h t r i [] = refl
any_expired-exists h t r i (p ∷ ps) = ground (arith, any_expired-exists h t r (i + 1) ps)

clean_entries-select :
    (h : Heap) (t : Time) (i : ℕ) (m : Map Response) (c : RecordCache)
    → clean_entries (λ _. t) h i m c ≡ (
      record c { evictions = reverse (select (has_expired h t) (values m)) ++ c.evictions },
      length (select (has_expired h t) (values m)),
    )
unfolding clean_entries values evict
clean_entries-select h t i [] c = refl
clean_entries-select h t i ((k, r) ∷ m) c =
    let j = i + length r.entry.answer in
    let found = select (has_expired h t) (values m) in
    ground (
      arith,
      any_expired-exists h t r i r.entry.answer,
      clean_entries-select h t j m (evict r c),
      clean_entries-select h t j m c,
      reverse-cons r found,
      append_assoc (reverse found) (r ∷ []) c.evictions,
    )

-- At a standing clock, Clean changes nothing but the evictions: it starts one for each response
-- that has an expired record, and returns their number.
pub clean-select :
    (h : Heap) (t : Time) (c : RecordCache)
    → clean (λ _. t) h c ≡ (
      record c { evictions = reverse (select (has_expired h t) (values c.cache)) ++ c.evictions },
      length (select (has_expired h t) (values c.cache)),
    )
unfolding clean
clean-select h t c = clean_entries-select h t 0 c.cache c

lookup-remove_slice :
    (m : Map Response) (c : RecordCache) (k : Text)
    → All IsKeyed m
    → lookup k (remove_slice (values m) c).cache
      ≡ (if is_some (lookup k m) then none else lookup k c.cache)
unfolding remove_slice remove values lookup
lookup-remove_slice [] c k h = refl
lookup-remove_slice ((j, r) ∷ m) c k h =
    ground
      (arith, h.0, lookup-remove_slice m (remove r c) k h.1, lookup-delete (format_key r) k c.cache)

-- Where the trashman's queue holds each response under its own key, and no key twice: after
-- FlushResponses a key that was queued is not in the cache, and any other is mapped as before.
pub lookup-flush_responses :
    (t : TrashMan) (c : RecordCache) (k : Text)
    → IsStore t.responses
    → lookup k (flush_responses t c).cache
      ≡ (if is_some (lookup k t.responses) then none else lookup k c.cache)
unfolding flush_responses
lookup-flush_responses t c k s = lookup-remove_slice t.responses c k s.keyed

-- Where the trashman's queue holds each response under its own key, and no key twice: a response
-- that is added while an old one of its key is queued is not in the cache after FlushResponses.
pub flush_responses-add :
    (t : TrashMan) (c : RecordCache) (old fresh : Response)
    → IsStore t.responses
    → lookup (format_key fresh) t.responses ≡ some old
    → lookup (format_key fresh) (flush_responses t (add fresh c)).cache ≡ none
flush_responses-add t c old fresh s queued =
    ground (arith, lookup-flush_responses t (add fresh c) (format_key fresh) s)
