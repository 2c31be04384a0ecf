-- ===== src/Cache/Lookup.antt =====
-- How Add, Remove and Get work together.
use funkyd.Base.{
  ℕ, ◌+◌, ◌^◌, ◌≤◌, ◌<◌, ◌≡◌, ◌≢◌, refl, sym, inl, inr, none, some, arith, All, if◌then◌else◌,
}
use funkyd.Base.Int.{ℤ}
use funkyd.Base.Text.{Text, text_eq_iff}
use funkyd.Base.Time.{Time}
use funkyd.Base.Map.{
  lookup, is_some, lookup-insert, lookup-insert_self, lookup-delete_self, length-insert,
  length-delete,
}
use funkyd.Dns.{Heap}
use funkyd.Cache.{Response, RecordCache, key_of, format_key, add, remove, size, get_found, get}
use funkyd.Cache.Keys.{key_of-injective}
use funkyd.Cache.Invariant.{Inv}
use funkyd.Cache.Freshness.{Distinct, IsExact}
use funkyd.Cache.HalfLife.{Serves, get-Serves}

-- Where uint32_seconds is exact, the clock stands still at a time not before the response's
-- creation, and its records are distinct with TTLs below 2^22, a response that was just added is
-- returned by Get for its name and type, if its age is within the whole seconds that are left of
-- each record.
pub get-add :
    (u : ℤ → ℕ) (h : Heap) (c : RecordCache) (r : Response) (t : Time)
    → IsExact u
    → r.creation_time ≤ t
    → Distinct r.entry.answer
    → All (λ p. (h p).ttl < 2 ^ 22) r.entry.answer
    → All (Serves h r t) r.entry.answer
    → (get u (λ _. t) h (add r c) r.name r.qtype).response ≡ some r
unfolding add
get-add u h c r t exact born d s ok =
    elim (get-Serves u h (add r c) r.name r.qtype r t exact born d s
      (lookup-insert_self (format_key r) r c.cache) refl) [
        | inl hit ↦ hit.1
        | inr miss ↦ absurd (miss.0 ok)
      ]

module _ (u : ℤ → ℕ) (now : ℕ → Time) (h : Heap) (c : RecordCache) (name : Text) (qtype : ℕ) where
  lookup-add_ne :
      (r : Response)
      → (name ≡ r.name → qtype ≢ r.qtype)
      → lookup (key_of name qtype) (add r c).cache ≡ lookup (key_of name qtype) c.cache
  unfolding add
  lookup-add_ne r ne =
      let differ : format_key r ≢ key_of name qtype = λ e.
        let (names, types) = key_of-injective r.name name r.qtype qtype e in
        ne (sym names) (sym types) in
      ground (
        arith,
        lookup-insert (format_key r) (key_of name qtype) r c.cache,
        text_eq_iff (format_key r) (key_of name qtype),
      )

  get_by_lookup :
      (d : RecordCache)
      → lookup (key_of name qtype) d.cache ≡ lookup (key_of name qtype) c.cache
      → ((get u now h d name qtype).response ≡ (get u now h c name qtype).response)
        × ((get u now h d name qtype).heap ≡ (get u now h c name qtype).heap)
  unfolding get get_found
  get_by_lookup d e = ground arith

  -- Adding a response changes neither what Get returns, nor what it writes to the records, for
  -- another name or another query type.
  pub get-add_ne :
      (r : Response)
      → (name ≡ r.name → qtype ≢ r.qtype)
      → ((get u now h (add r c) name qtype).response ≡ (get u now h c name qtype).response)
        × ((get u now h (add r c) name qtype).heap ≡ (get u now h c name qtype).heap)
  get-add_ne r ne = get_by_lookup (add r c) (lookup-add_ne r ne)

-- A response that was removed is not found any more.
pub get-remove :
    (u : ℤ → ℕ) (now : ℕ → Time) (h : Heap) (c : RecordCache) (r : Response)
    → get u now h (remove r c) r.name r.qtype
      ≡ record { heap = h; cache = remove r c; response = none }
unfolding get remove
get-remove u now h c r = rw (lookup-delete_self (format_key r) c.cache, get)

-- In a cache that satisfies the invariant, Add makes Size larger by one if the key is new and
-- leaves it otherwise, and Remove makes it smaller by one if the key is present and leaves it
-- otherwise.
pub size-add-remove :
    (r : Response) (c : RecordCache)
    → Inv c
    → (size (add r c) ≡ (if is_some (lookup (format_key r) c.cache) then size c else size c + 1))
      × (size c ≡ (
          if is_some (lookup (format_key r) c.cache)
          then size (remove r c) + 1
          else size (remove r c)))
unfolding size add remove
size-add-remove r c v =
    (length-insert (format_key r) r c.cache, length-delete (format_key r) c.cache v.store.unique)
