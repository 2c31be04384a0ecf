-- ===== src/Zones/Loading.antt =====
-- What the hosted cache holds once the zone files are loaded.
use mathlib.Core.List.{map}
use mathlib.Core.Option.{some-injective}
use funkyd.Base.{
  ℕ, ◌+◌, ◌≡◌, refl, inl, inr, sym, Option, none, some, List, [], ◌∷◌, ◌++◌, arith, Option-cases,
  if◌then◌else◌,
}
use funkyd.Base.Text.{Text, text_eq}
use funkyd.Base.Time.{Time}
use funkyd.Base.Map.{lookup, lookup-insert}
use funkyd.Dns.{Heap}
use funkyd.Cache
use funkyd.Cache.{Response, RecordCache, format_key}
use funkyd.ConnPool.Selection.{or_else}
use funkyd.Zones.{Token, zone_response, parse_zone_file, add_responses, load_local_zones}

-- The records of all files, in their order.
abbrev pub tokens_of : List (Option (List Token)) → List Token
tokens_of [] = []
tokens_of (none ∷ files) = tokens_of files
tokens_of (some ts ∷ files) = ts ++ tokens_of files

abbrev pub responses_of : Heap → Time → List Token → List Response
responses_of h t ts = map (λ x. zone_response h t x.rr) ts

-- The last of the responses that has the key.
abbrev pub last_with : Text → List Response → Option Response
last_with k [] = none
last_with k (r ∷ rs) =
    let rest = last_with k rs in or_else rest (if text_eq (format_key r) k then some r else none)

lookup-add :
    (k : Text) (r : Response) (c : RecordCache)
    → lookup k (Cache.add r c).cache
      ≡ (if text_eq (format_key r) k then some r else lookup k c.cache)
unfolding Cache.add
lookup-add k r c = lookup-insert (format_key r) k r c.cache

lookup-add_responses :
    (k : Text) (rs : List Response) (c : RecordCache)
    → lookup k (add_responses rs c).cache ≡ or_else (last_with k rs) (lookup k c.cache)
unfolding add_responses
lookup-add_responses k [] c = refl
lookup-add_responses k (r ∷ rs) c =
    ground (arith, lookup-add_responses k rs (Cache.add r c), lookup-add k r c)

last_with-append :
    (k : Text) (rs ss : List Response)
    → last_with k (rs ++ ss) ≡ or_else (last_with k ss) (last_with k rs)
last_with-append k [] ss = ground arith
last_with-append k (r ∷ rs) ss = ground (arith, last_with-append k rs ss)

responses-append :
    (h : Heap) (t : Time) (ts us : List Token)
    → responses_of h t (ts ++ us) ≡ responses_of h t ts ++ responses_of h t us
responses-append h t [] us = refl
responses-append h t (x ∷ ts) us = rw (responses-append h t ts us) refl

parse_zone_file-responses :
    (h : Heap) (t : Time) (i : ℕ) (ts : List Token) (rs : List Response)
    → parse_zone_file h (λ _. t) i ts ≡ some rs
    → rs ≡ responses_of h t ts
unfolding parse_zone_file
parse_zone_file-responses h t i [] rs e = sym (some-injective _ _ e)
parse_zone_file-responses h t i (x ∷ ts) rs e =
    elim (Option-cases (parse_zone_file h (λ _. t) (i + 1) ts)) [
      | inl bad ↦ ground arith
      | inr (ss, good) ↦ let tail = parse_zone_file-responses h t (i + 1) ts ss good in ground arith
    ]

-- At a standing clock, if all zone files are read and parsed without an error, then the hosted
-- cache maps each key to the last record of the files that has this key, alone in its answer, and
-- maps a key that no record has as before.
pub load_local_zones-last :
    (h : Heap) (t : Time) (f : ℕ) (files : List (Option (List Token))) (c c' : RecordCache)
    (k : Text)
    → load_local_zones h (λ _ _. t) f files c ≡ some c'
    → lookup k c'.cache
      ≡ or_else (last_with k (responses_of h t (tokens_of files))) (lookup k c.cache)
unfolding load_local_zones
load_local_zones-last h t f [] c c' k e = rw (some-injective _ _ e) refl
load_local_zones-last h t f (none ∷ files) c c' k e = cc
load_local_zones-last h t f (some ts ∷ files) c c' k e =
    elim (Option-cases (parse_zone_file h (λ _. t) 0 ts)) [
      | inl bad ↦ cc (rw (bad, load_local_zones) at e)
      | inr (rs, good) ↦
          let these = parse_zone_file-responses h t 0 ts rs good in
          let rest =
            load_local_zones-last h t (f + 1) files (add_responses rs c) c' k
              (rw (good, load_local_zones) at e) in
          ground (
            arith,
            responses-append h t ts (tokens_of files),
            last_with-append k rs (responses_of h t (tokens_of files)),
            lookup-add_responses k rs c,
          )
    ]
