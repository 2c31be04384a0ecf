-- ===== src/Zones.antt =====
-- bind.go and main.go: the zone files, and the hosted cache that they fill.
pub mod Loading
pub mod Hosting
use funkyd.Base.{ℕ, ◌+◌, ◌*◌, Bool, Option, none, some, List, [], ◌∷◌, if◌then◌else◌}
use funkyd.Base.Time.{Time, second}
use funkyd.Dns.{Heap, Ref, empty_msg}
use funkyd.Cache
use funkyd.Cache.{Response, RecordCache}

-- What the zone parser yields in one round: the record that Next returns, and whether Err then says
-- that there is an error. A file is the list of the rounds before Next returns false.
pub record Token : Type 0 where
  pub rr : Ref
  pub err : Bool

unfoldable pub zone_response : Heap → Time → Ref → Response
zone_response h now p = record {
  name = (h p).name;
  entry = record empty_msg { answer = p ∷ [] };
  ttl = (h p).ttl * second;
  qtype = (h p).rrtype;
  creation_time = now;
}

-- `now i` is the clock's reading for the i-th record; `none` is an error.
unfoldable pub parse_zone_file : Heap → (ℕ → Time) → ℕ → List Token → Option (List Response)
parse_zone_file h now i [] = some []
parse_zone_file h now i (t ∷ ts) =
    let rest = parse_zone_file h now (i + 1) ts in
    if t.err
    then none
    else elim rest [ none ↦ none | some rs ↦ some (zone_response h (now i) t.rr ∷ rs) ]

-- The loop over the responses of a file.
unfoldable pub add_responses : List Response → RecordCache → RecordCache
add_responses [] c = c
add_responses (r ∷ rs) c = add_responses rs (Cache.add r c)

-- The loop over the files; `none` is the exit of log.Fatalf, after an error in a file or in reading
-- it. `now f i` is the clock's reading for the i-th record of the f-th file.
unfoldable pub load_local_zones :
    Heap → (ℕ → ℕ → Time) → ℕ → List (Option (List Token)) → RecordCache → Option RecordCache
load_local_zones h now f [] c = some c
load_local_zones h now f (none ∷ files) c = none
load_local_zones h now f (some ts ∷ files) c = elim (parse_zone_file h (now f) 0 ts) [
  | none ↦ none
  | some rs ↦ load_local_zones h now (f + 1) files (add_responses rs c)
]
