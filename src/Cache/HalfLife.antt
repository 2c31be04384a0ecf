-- ===== src/Cache/HalfLife.antt =====
-- When exactly Get serves an entry. The clock stands still within a call here. Get overwrites a TTL
-- by the time that is left, and then measures that from the time of creation again.
use funkyd.Base.{
  ℕ, ◌+◌, ◌-◌, ◌*◌, ◌/◌, ◌^◌, ◌≤◌, ◌<◌, ◌≡◌, ◌≢◌, refl, inl, inr, true, false, none, some, List, [],
  ◌∷◌, arith, All, All-map, Bool-cases, ltb, sym, ◌∙◌, subst, ◌⊎◌,
}
use funkyd.Base.Int.{ℤ}
use funkyd.Base.Text.{Text}
use funkyd.Base.Time.{Time, second}
use funkyd.Base.Map.{lookup}
use funkyd.Dns.{Rr, Heap, Ref}
use funkyd.Cache.{
  Response, RecordCache, key_of, is_expired, update_ttl, scan, get_found, get, evict,
}
use funkyd.Cache.Freshness.{
  get-Hit, Distinct, IsExact, update_ttl_other, update_ttl_others, others_update_ttl,
}

-- The whole seconds that are left of a record.
abbrev pub left_of : Response → Time → Rr → ℕ
left_of r t rr = (rr.ttl * second - (t - r.creation_time)) / second

abbrev pub remaining : Heap → Response → Time → Ref → ℕ
remaining h r t p = left_of r t (h p)

-- The age of the response is within the time that is left.
abbrev pub Serve : Response → Time → Rr → Type 0
Serve r t rr = t - r.creation_time ≤ left_of r t rr * second

abbrev pub Serves : Heap → Response → Time → Ref → Type 0
Serves h r t p = Serve r t (h p)

module _ (u : ℤ → ℕ) (exact : IsExact u) (r : Response) (t : Time)
    (born : r.creation_time ≤ t) where
  abbrev Small : Heap → Ref → Type 0
  Small h p = (h p).ttl < 2 ^ 22

  updated :
      (h : Heap) (i : ℕ) (p : Ref)
      → Small h p
      → is_expired h r t p ≡ false
      → update_ttl u (λ _. t) h r i p p ≡ record (h p) { ttl = remaining h r t p }
  unfolding update_ttl
  updated h i p s e =
      let left : r.creation_time + (h p).ttl * second - t
          ≡ (h p).ttl * second - (t - r.creation_time) =
        omega arith in
      ground (arith, left, exact (r.creation_time + (h p).ttl * second - t))

  stale_stays :
      (h : Heap) (i : ℕ) (p : Ref)
      → is_expired h r t p ≡ true
      → is_expired (update_ttl u (λ _. t) h r i p) r t p ≢ false
  unfolding update_ttl
  stale_stays h i p stale e = ground arith

  live_before : (h : Heap) (p : Ref) → Serves h r t p → is_expired h r t p ≡ false
  unfolding is_expired
  live_before h p e = ground arith

  Serves-of_live :
      (h : Heap) (i : ℕ) (p : Ref)
      → Small h p
      → is_expired (update_ttl u (λ _. t) h r i p) r t p ≡ false
      → Serves h r t p
        × (update_ttl u (λ _. t) h r i p p ≡ record (h p) { ttl = remaining h r t p })
  unfolding update_ttl
  Serves-of_live h i p s e = elim (Bool-cases (is_expired h r t p)) [
    | inl stale ↦ absurd (stale_stays h i p stale e)
    | inr live ↦
        (serves_of_ltb (remaining h r t p) (rw (updated h i p s live) at e), updated h i p s live)
  ]
    where
      serves_of_ltb :
          (n : ℕ) → ltb (r.creation_time + n * second) t ≡ false → t - r.creation_time ≤ n * second
      serves_of_ltb n l = ground arith

  live_of_Serves :
      (h : Heap) (i : ℕ) (p : Ref)
      → Small h p
      → Serves h r t p
      → is_expired (update_ttl u (λ _. t) h r i p) r t p ≡ false
  unfolding update_ttl
  live_of_Serves h i p s e =
      let live : is_expired h r t p ≡ false = live_before h p e in
      rw (updated h i p s live) (ground arith)

  -- The loop finds nothing expired exactly when every record serves, and leaves in each record the
  -- whole seconds that it had left.
  abbrev Left : Heap → Heap → List Ref → Type 0
  Left h g = All (λ p. g p ≡ record (h p) { ttl = remaining h r t p })

  scan_other :
      (h : Heap) (i : ℕ) (ps : List Ref) (q : Ref)
      → All (λ p. p ≢ q) ps
      → (scan u (λ _. t) h r i ps).0 q ≡ h q
  unfolding scan
  scan_other h i [] q ne = refl
  scan_other h i (p ∷ ps) q ne =
      let h' = update_ttl u (λ _. t) h r i p in
      let same = update_ttl_other u (λ _. t) r h i p q (λ e. ne.0 (sym e)) in
      elim (Bool-cases (is_expired h' r t p)) [
        | inl stale ↦ rw (stale, scan) same
        | inr live ↦ rw (live, scan) (scan_other h' (i + 3) ps q ne.1 ∙ same)
      ]

  scan_live :
      (h : Heap) (i : ℕ) (p : Ref) (ps : List Ref)
      → is_expired (update_ttl u (λ _. t) h r i p) r t p ≡ false
      → scan u (λ _. t) h r i (p ∷ ps)
        ≡ scan u (λ _. t) (update_ttl u (λ _. t) h r i p) r (i + 3) ps
  unfolding scan
  scan_live h i p ps live = rw (live, scan)

  scan-Serves :
      (h : Heap) (i : ℕ) (ps : List Ref)
      → Distinct ps
      → All (Small h) ps
      → (scan u (λ _. t) h r i ps).1 ≡ false
      → All (Serves h r t) ps × Left h (scan u (λ _. t) h r i ps).0 ps
  unfolding scan
  scan-Serves h i [] d s e = (tt, tt)
  scan-Serves h i (p ∷ ps) d s e =
      let h' = update_ttl u (λ _. t) h r i p in
      elim (Bool-cases (is_expired h' r t p)) [
        | inl stale ↦ cc (rw (stale, scan) at e)
        | inr live ↦
            let (now_ok, left) = Serves-of_live h i p s.0 live in
            let rest =
              scan-Serves h' (i + 3) ps d.1
                (others_update_ttl u (λ _. t) r (λ q rr. rr.ttl < 2 ^ 22) h i p ps d.0 s.1)
                (rw (live, scan) at e) in
            let g = (scan u (λ _. t) h' r (i + 3) ps).0 in
            (
              (now_ok, update_ttl_others u (λ _. t) r (λ q rr. Serve r t rr) h i p ps d.0 rest.0),
              subst (λ o. Left h o.0 (p ∷ ps)) (sym (scan_live h i p ps live))
                  (
                    scan_other h' (i + 3) ps p d.0 ∙ left,
                    update_ttl_others u (λ _. t) r
                        (λ q rr. g q ≡ record rr { ttl = left_of r t rr }) h i p ps d.0 rest.1,
                  ),
            )
      ]

  Serves-scan :
      (h : Heap) (i : ℕ) (ps : List Ref)
      → Distinct ps
      → All (Small h) ps
      → All (Serves h r t) ps
      → (scan u (λ _. t) h r i ps).1 ≡ false
  unfolding scan
  Serves-scan h i [] d s a = refl
  Serves-scan h i (p ∷ ps) d s a =
      let h' = update_ttl u (λ _. t) h r i p in
      rw (live_of_Serves h i p s.0 a.0, scan)
        (Serves-scan h' (i + 3) ps d.1
          (others_update_ttl u (λ _. t) r (λ q rr. rr.ttl < 2 ^ 22) h i p ps d.0 s.1)
          (others_update_ttl u (λ _. t) r (λ q rr. Serve r t rr) h i p ps d.0 a.1))

-- Where uint32_seconds is exact, the clock stands still at a time not before the response's
-- creation, and its records are distinct with TTLs below 2^22, a response that Get returns is in
-- the first half of the TTL of each of its records, as the cache held them; Get writes into each
-- record the whole seconds that were left, and leaves the cache as it was.
pub get-hit-half :
    (u : ℤ → ℕ) (h : Heap) (c : RecordCache) (name : Text) (qtype : ℕ) (r : Response) (t : Time)
    → IsExact u
    → r.creation_time ≤ t
    → Distinct r.entry.answer
    → All (λ p. (h p).ttl < 2 ^ 22) r.entry.answer
    → (get u (λ _. t) h c name qtype).response ≡ some r
    → All (λ p. 2 * (t - r.creation_time) ≤ (h p).ttl * second) r.entry.answer
      × All
          (λ p.
            (get u (λ _. t) h c name qtype).heap p
            ≡ record (h p) { ttl = ((h p).ttl * second - (t - r.creation_time)) / second })
          r.entry.answer
      × ((get u (λ _. t) h c name qtype).cache ≡ c)
unfolding get
get-hit-half u h c name qtype r t exact born d s e =
    let (same, kept) = get-Hit u (λ _. t) h c qtype name r e in
    let (ok, left) = scan-Serves u exact r t born h 0 r.entry.answer d s kept in
    rw same (All-map (λ p v. omega arith) r.entry.answer ok, left, refl)

-- Where uint32_seconds is exact, the clock stands still at a time not before the response's
-- creation, and its records are distinct with TTLs below 2^22, Get on an entry of the asked type
-- returns it and leaves the cache as it was if its age is within the whole seconds that are left of
-- each record; otherwise it returns nothing and starts the entry's eviction.
pub get-Serves :
    (u : ℤ → ℕ) (h : Heap) (c : RecordCache) (name : Text) (qtype : ℕ) (r : Response) (t : Time)
    → IsExact u
    → r.creation_time ≤ t
    → Distinct r.entry.answer
    → All (λ p. (h p).ttl < 2 ^ 22) r.entry.answer
    → lookup (key_of name qtype) c.cache ≡ some r
    → r.qtype ≡ qtype
    → let g = get u (λ _. t) h c name qtype in
      (All (Serves h r t) r.entry.answer × (g.response ≡ some r) × (g.cache ≡ c))
      ⊎ ((¬ All (Serves h r t) r.entry.answer) × (g.response ≡ none) × (g.cache ≡ evict r c))
unfolding get get_found
get-Serves u h c name qtype r t exact born d s e q =
    elim (Bool-cases (scan u (λ _. t) h r 0 r.entry.answer).1) [
      | inl stale ↦ inr (
        λ a. cc (stale, Serves-scan u exact r t born h 0 r.entry.answer d s a),
        ground arith,
        ground arith,
      )
      | inr live ↦
          inl (
            (scan-Serves u exact r t born h 0 r.entry.answer d s live).0,
            ground arith,
            ground arith,
          )
    ]
