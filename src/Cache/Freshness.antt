-- ===== src/Cache/Freshness.antt =====
-- What Get serves: the loop over the records of an entry, which updates each TTL in place.
use native.Mathlib.Nat.{le_trans}
use funkyd.Base.{
  ℕ, ◌+◌, ◌*◌, ◌/◌, ◌^◌, ◌≤◌, ◌<◌, ◌≡◌, ◌≢◌, inl, inr, false, some, List, [], ◌∷◌, arith, All,
  Bool-cases, Option-cases, sym, subst,
}
use funkyd.Base.Int.{ℤ, pos}
use funkyd.Base.Text.{Text}
use funkyd.Base.Time.{Time, second}
use funkyd.Base.Map.{lookup}
use funkyd.Dns.{Rr, Heap, Ref}
use funkyd.Cache.{
  Response, RecordCache, GetResult, key_of, is_expired, update_ttl, scan, get_found, get,
}

-- The records of one answer are distinct objects.
abbrev pub Distinct : List Ref → Type 0
Distinct [] = Unit {0}
Distinct (p ∷ ps) = All (λ q. q ≢ p) ps × Distinct ps

-- `uint32(d.Seconds())` drops the fraction of a second. Below 2^22 seconds the fraction of the
-- float64 is fine enough for that.
abbrev pub IsExact : (ℤ → ℕ) → Type 0
IsExact u = (d : ℕ) → d < 2 ^ 22 * second → u (pos d) ≡ d / second

abbrev pub IsMonotone : (ℕ → Time) → Type 0
IsMonotone now = (i j : ℕ) → i ≤ j → now i ≤ now j

-- A write to one record leaves the others alone.
module _ (u : ℤ → ℕ) (now : ℕ → Time) (r : Response) where
  pub update_ttl_other : (h : Heap) (i : ℕ) (p q : Ref) → q ≢ p → update_ttl u now h r i p q ≡ h q
  unfolding update_ttl
  update_ttl_other h i p q ne = ground arith

  pub update_ttl_others :
      (P : Ref → Rr → Type 0) (h : Heap) (i : ℕ) (p : Ref) (ps : List Ref)
      → All (λ q. q ≢ p) ps
      → All (λ q. P q (update_ttl u now h r i p q)) ps
      → All (λ q. P q (h q)) ps
  update_ttl_others P h i p [] ne a = tt
  update_ttl_others P h i p (q ∷ ps) ne a =
      (rw (update_ttl_other h i p q ne.0) at a.0, update_ttl_others P h i p ps ne.1 a.1)

  pub others_update_ttl :
      (P : Ref → Rr → Type 0) (h : Heap) (i : ℕ) (p : Ref) (ps : List Ref)
      → All (λ q. q ≢ p) ps
      → All (λ q. P q (h q)) ps
      → All (λ q. P q (update_ttl u now h r i p q)) ps
  others_update_ttl P h i p [] ne a = tt
  others_update_ttl P h i p (q ∷ ps) ne a =
      (rw (update_ttl_other h i p q ne.0) a.0, others_update_ttl P h i p ps ne.1 a.1)

  -- If the record is not found expired after the update, then it was not expired before it.
  update_ttl_unexpired :
      (h : Heap) (i : ℕ) (p : Ref)
      → now i ≤ now (i + 2)
      → is_expired (update_ttl u now h r i p) r (now (i + 2)) p ≡ false
      → now i ≤ r.creation_time + (h p).ttl * second
  unfolding update_ttl is_expired
  update_ttl_unexpired h i p m e = ground arith

  scan_unexpired :
      (h : Heap) (i : ℕ) (ps : List Ref)
      → IsMonotone now
      → Distinct ps
      → (scan u now h r i ps).1 ≡ false
      → All (λ p. now 0 ≤ r.creation_time + (h p).ttl * second) ps
  unfolding scan
  scan_unexpired h i [] m d e = tt
  scan_unexpired h i (p ∷ ps) m d e =
      let h' = update_ttl u now h r i p in
      elim (Bool-cases (is_expired h' r (now (i + 2)) p)) [
        | inl stale ↦ cc (rw (stale, scan) at e)
        | inr live ↦ (
          le_trans (m 0 i (omega arith))
              (update_ttl_unexpired h i p (m i (i + 2) (omega arith)) live),
          update_ttl_others (λ q rr. now 0 ≤ r.creation_time + rr.ttl * second) h i p ps d.0
              (scan_unexpired h' (i + 3) ps m d.1 (rw (live, scan) at e)),
        )
      ]

-- A hit returns the entry whose records the loop has passed, and leaves the cache alone.
abbrev Hit : (ℤ → ℕ) → (ℕ → Time) → Heap → RecordCache → Response → GetResult → Type 0
Hit u now h c r g =
    (g ≡ record { heap = (scan u now h r 0 r.entry.answer).0; cache = c; response = some r })
    × ((scan u now h r 0 r.entry.answer).1 ≡ false)

module _ (u : ℤ → ℕ) (now : ℕ → Time) (h : Heap) (c : RecordCache) (qtype : ℕ) where
  get_found-same : (s r : Response) → (get_found u now h c qtype s).response ≡ some r → s ≡ r
  unfolding get_found
  get_found-same s r f = ground arith

  get_found_self :
      (r : Response)
      → (get_found u now h c qtype r).response ≡ some r
      → Hit u now h c r (get_found u now h c qtype r)
  unfolding get_found
  get_found_self r f = ground arith

  pub get-Hit :
      (name : Text) (r : Response)
      → (get u now h c name qtype).response ≡ some r
      → Hit u now h c r (get u now h c name qtype)
  unfolding get
  get-Hit name r e = elim (Option-cases (lookup (key_of name qtype) c.cache)) [
    | inl miss ↦ cc (rw (miss, get) at e)
    | inr (s, hit) ↦
        let f : (get_found u now h c qtype s).response ≡ some r = rw (hit, get) at e in
        let same = get_found-same s r f in
        rw (hit, get)
          (subst (λ x. Hit u now h c r (get_found u now h c qtype x)) (sym same)
            (get_found_self r (rw same at f)))
  ]

-- If the clock does not go back, and the records of a response that Get returns are distinct, then
-- none of them, as the cache held it, was expired at the clock's first reading.
pub get-hit-unexpired :
    (u : ℤ → ℕ) (now : ℕ → Time) (h : Heap) (c : RecordCache) (name : Text) (qtype : ℕ)
    (r : Response)
    → IsMonotone now
    → Distinct r.entry.answer
    → (get u now h c name qtype).response ≡ some r
    → All (λ p. now 0 ≤ r.creation_time + (h p).ttl * second) r.entry.answer
get-hit-unexpired u now h c name qtype r m d e =
    scan_unexpired u now r h 0 r.entry.answer m d (get-Hit u now h c qtype name r e).1
