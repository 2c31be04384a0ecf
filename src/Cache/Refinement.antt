-- ===== src/Cache/Refinement.antt =====
-- What the cache promises, as an abstract store: for each name and query type at most one response.
-- The store knows neither keys nor the cleaning crew nor the clock.
use mathlib.Core.Path.{fun_ext}
use funkyd.Base.{
  ℕ, ◌≡◌, refl, ap, ◌⊎◌, subst, ◌+◌, length, inl, inr, Bool, ◌&&◌, Option, none, some, List, [],
  ◌∷◌, ◌==◌, arith, ◌∙◌, if◌then◌else◌,
}
use funkyd.Base.Int.{ℤ}
use funkyd.Base.Text.{Text, text_eq, text_eq_iff}
use funkyd.Base.Time.{Time}
use funkyd.Base.Map.{Map, lookup, values, lookup-insert, lookup-delete}
use funkyd.Dns.{Heap}
use funkyd.Cache.{
  Response, TrashMan, RecordCache, key_of, format_key, add, remove, remove_slice, evict, get,
  get_found, clean, clean_entries, any_expired,
}
use funkyd.Cache.Crew.{flush_responses}
use funkyd.Cache.Keys.{key_of-injective}

abbrev pub Store : Type 0
Store = Text → ℕ → Option Response

abbrev pub view : RecordCache → Store
view c name qtype = lookup (key_of name qtype) c.cache

-- The operations on a cache, with their readings of the clock; `flushes t` is the flush of the
-- responses that the trashman t holds.
pub data Operation : Type 0 where
  adds : Response → Operation
  removes : Response → Operation
  removes_slice : List Response → Operation
  gets : (ℕ → Time) → Text → ℕ → Operation
  cleans : (ℕ → Time) → Operation
  flushes : TrashMan → Operation

unfoldable asks : Response → Text → ℕ → Bool
asks r name qtype = text_eq r.name name && (r.qtype == qtype)

unfoldable pub put : Response → Store → Store
unfolding asks
put r s name qtype = if asks r name qtype then some r else s name qtype

unfoldable pub drop : Response → Store → Store
unfolding asks
drop r s name qtype = if asks r name qtype then none else s name qtype

unfoldable pub drop_all : List Response → Store → Store
unfolding drop
drop_all [] s = s
drop_all (r ∷ rs) s = drop_all rs (drop r s)

-- The store after the operations, and what it holds at each Get.
unfoldable pub replay : List Operation → Store → Store × List (Option Response)
unfolding put drop drop_all
replay [] s = (s, [])
replay (adds r ∷ ops) s = replay ops (put r s)
replay (removes r ∷ ops) s = replay ops (drop r s)
replay (removes_slice rs ∷ ops) s = replay ops (drop_all rs s)
replay (gets now name qtype ∷ ops) s =
    let (s', answers) = replay ops s in (s', s name qtype ∷ answers)
replay (cleans now ∷ ops) s = replay ops s
replay (flushes t ∷ ops) s = replay ops (drop_all (values t.responses) s)

-- An answer of Get is what the store holds, or nothing.
pub data Allowed : List (Option Response) → List (Option Response) → Type 0 where
  no_answers : Allowed [] []
  hit :
      {xs ys : List (Option Response)}
      → (x : Option Response) → Allowed xs ys
      → Allowed (x ∷ xs) (x ∷ ys)
  miss :
      {xs ys : List (Option Response)}
      → (y : Option Response) → Allowed xs ys
      → Allowed (none ∷ xs) (y ∷ ys)

module _ (u : ℤ → ℕ) where
  -- The operations on the cache itself, and the answers of its Gets.
  unfoldable pub run : List Operation → Heap → RecordCache → RecordCache × List (Option Response)
  run [] h c = (c, [])
  run (adds r ∷ ops) h c = run ops h (add r c)
  run (removes r ∷ ops) h c = run ops h (remove r c)
  run (removes_slice rs ∷ ops) h c = run ops h (remove_slice rs c)
  run (gets now name qtype ∷ ops) h c =
      let g = get u now h c name qtype in
      let (d, answers) = run ops g.heap g.cache in (d, g.response ∷ answers)
  run (cleans now ∷ ops) h c = run ops h (clean now h c).0
  run (flushes t ∷ ops) h c = run ops h (flush_responses t c)

asks-key_of :
    (r : Response) (name : Text) (qtype : ℕ)
    → text_eq (format_key r) (key_of name qtype) ≡ asks r name qtype
unfolding asks
asks-key_of r name qtype = ground (
  arith,
  text_eq_iff (format_key r) (key_of name qtype),
  text_eq_iff r.name name,
  key_of-injective r.name name r.qtype qtype,
)

view-add : (r : Response) (c : RecordCache) → view (add r c) ≡ put r (view c)
unfolding add put
view-add r c = fun_ext (λ name. fun_ext (λ qtype.
    lookup-insert (format_key r) (key_of name qtype) r c.cache
    ∙ ap (λ b. if b then some r else view c name qtype) (asks-key_of r name qtype)))

view-remove : (r : Response) (c : RecordCache) → view (remove r c) ≡ drop r (view c)
unfolding remove drop
view-remove r c = fun_ext (λ name. fun_ext (λ qtype.
    lookup-delete (format_key r) (key_of name qtype) c.cache
    ∙ ap (λ b. if b then none else view c name qtype) (asks-key_of r name qtype)))

view-remove_slice :
    (rs : List Response) (c : RecordCache) → view (remove_slice rs c) ≡ drop_all rs (view c)
unfolding remove_slice drop_all
view-remove_slice [] c = refl
view-remove_slice (r ∷ rs) c =
    view-remove_slice rs (remove r c) ∙ ap (drop_all rs) (view-remove r c)

module _ (u : ℤ → ℕ) (now : ℕ → Time) (h : Heap) where
  pub cache-get :
      (c : RecordCache) (name : Text) (qtype : ℕ) → (get u now h c name qtype).cache.cache ≡ c.cache
  unfolding get get_found evict
  cache-get c name qtype = ground arith

  get-view :
      (c : RecordCache) (name : Text) (qtype : ℕ)
      → ((get u now h c name qtype).response ≡ none)
        ⊎ ((get u now h c name qtype).response ≡ view c name qtype)
  unfolding get get_found
  get-view c name qtype = ground arith

  clean_entries-cache :
      (i : ℕ) (m : Map Response) (c : RecordCache) → (clean_entries now h i m c).0.cache ≡ c.cache
  unfolding clean_entries evict
  clean_entries-cache i [] c = refl
  clean_entries-cache i ((k, r) ∷ m) c =
      clean_entries-cache (i + length r.entry.answer) m
        (if any_expired now h r i r.entry.answer then evict r c else c)
      ∙ ground arith

view_by_cache : (d c : RecordCache) → d.cache ≡ c.cache → view d ≡ view c
view_by_cache d c e = ap (λ m. λ name qtype. lookup (key_of name qtype) m) e

view-flush_responses :
    (t : TrashMan) (c : RecordCache)
    → view (flush_responses t c) ≡ drop_all (values t.responses) (view c)
unfolding flush_responses
view-flush_responses t c = view-remove_slice (values t.responses) c

answers-Allowed :
    (x y : Option Response) (xs ys : List (Option Response))
    → (x ≡ none) ⊎ (x ≡ y)
    → Allowed xs ys
    → Allowed (x ∷ xs) (y ∷ ys)
answers-Allowed x y xs ys (inl e) a = rw e (miss y a)
answers-Allowed x y xs ys (inr e) a = rw e (hit y a)

module _ (u : ℤ → ℕ) where
  -- The answers of a run are allowed by those of a replay from the same view.
  Agrees : List Operation → Heap → RecordCache → Store → Type 0
  Agrees ops h c s =
      (view (run u ops h c).0 ≡ (replay ops s).0) × Allowed (run u ops h c).1 (replay ops s).1

  -- The cache implements a store that holds at most one response for each name and query type:
  -- after any list of calls of Add, Remove, RemoveSlice, Get and Clean and of flushes of the
  -- trashman, a lookup under the key of a name and a type finds what the store holds for them, and
  -- each answer of a Get is what the store holds at that point, or nothing.
  pub run-replay :
      (ops : List Operation) (h : Heap) (c : RecordCache)
      → (view (run u ops h c).0 ≡ (replay ops (view c)).0)
        × Allowed (run u ops h c).1 (replay ops (view c)).1
  unfolding run replay Agrees clean
  run-replay [] h c = (refl, no_answers)
  run-replay (adds r ∷ ops) h c =
      subst (Agrees ops h (add r c)) (view-add r c) (run-replay ops h (add r c))
  run-replay (removes r ∷ ops) h c =
      subst (Agrees ops h (remove r c)) (view-remove r c) (run-replay ops h (remove r c))
  run-replay (removes_slice rs ∷ ops) h c =
      subst (Agrees ops h (remove_slice rs c)) (view-remove_slice rs c)
        (run-replay ops h (remove_slice rs c))
  run-replay (gets now name qtype ∷ ops) h c =
      let g = get u now h c name qtype in
      let (same, allowed) =
        subst (Agrees ops g.heap g.cache) (view_by_cache g.cache c (cache-get u now h c name qtype))
          (run-replay ops g.heap g.cache) in
      (same, answers-Allowed _ _ _ _ (get-view u now h c name qtype) allowed)
  run-replay (cleans now ∷ ops) h c =
      let d = (clean now h c).0 in
      subst (Agrees ops h d) (view_by_cache d c (clean_entries-cache u now h 0 c.cache c))
        (run-replay ops h d)
  run-replay (flushes t ∷ ops) h c =
      subst (Agrees ops h (flush_responses t c)) (view-flush_responses t c)
        (run-replay ops h (flush_responses t c))
