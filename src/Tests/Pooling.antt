-- ===== src/Tests/Pooling.antt =====
-- Witnesses for the pool.
use funkyd.Base.{false, ℕ, ◌*◌, ◌≡◌, refl, true, false, none, some, [], ◌∷◌, ◌++◌, arith, All}
use funkyd.Base.Int.{pos}
use funkyd.Base.Text.{codes, Text, text_eq, text_eq_refl, sprintf_pair}
use funkyd.Base.Time.{second, millisecond}
use funkyd.Base.Map.{is_some, lookup, insert}
use funkyd.Config.{Configuration, cooldown_duration}
use funkyd.Upstream.{
  Upstream, get_address, cooldown, no_upstream, is_no_upstream, is_cooling, effective_port,
}
use funkyd.ConnEntry.{
  ConnEntry, Dialled, address_of, add_error, add_exchange, new_entry, no_conn_entry,
}
use funkyd.ConnPool.{
  ConnPool, Got, get, add, new_connection, cached, get_upstream_by_address, get_best_upstream,
  best_loop,
}
use funkyd.ConnPool.Lifecycle.{World, start, Reach, here, next, dials, returns, Accounted}
use funkyd.ConnPool.Accounting.{Reach-Accounted}
use funkyd.ConnPool.Selection.{
  find, head?, or_else, has_conns, is_open, Ordered, get_best_upstream-find,
}
use funkyd.ConnPool.Sorting.{Reach-Ordered}
use funkyd.ConnPool.Cooling.{add-error, get-failed_dial}
use funkyd.Tests.{mills, insertion_sort, insertion_sort-IsSort}

abbrev pub settings : Configuration
settings = record {
  cooldown_period = pos 0;
  use_tfo = false;
  zone_files = [];
  blackhole = false;
  dns_port = pos 0;
  http_port = pos 8080;
  concurrent_queries = pos 2;
  server_log = record { level = pos 4; location = codes "/dev/stderr" };
  query_log = record { level = pos 0; location = [] };
  listen_protocol = codes "tcp-tls";
  tls_config = record { private_key_file = []; certificate_file = [] };
  skip_upstream_verification = false;
  timeout = pos 0;
  clean_interval = pos 0;
  eviction_batch_size = pos 2;
  upstreams = (b'x' ∷ []) ∷ (b'y' ∷ []) ∷ [];
  upstream_retries = pos 2;
}

abbrev pub x : Upstream ℕ
x = record { name = b'x' ∷ []; port = pos 0; weight = 0; wakeup_time = 0 }

abbrev pub y : Upstream ℕ
y = record { name = b'y' ∷ []; port = pos 0; weight = 0; wakeup_time = 0 }

-- The first dial takes 20 ms.
abbrev dial : Text → Dialled
dial a = record { conn = some 7; duration = 20 * millisecond }

abbrev dialled : ConnEntry ℕ
dialled = add_exchange settings (20 * millisecond) (new_entry 7 x)

abbrev in_use : World ℕ
in_use = record (start (x ∷ y ∷ [])) { lent = dialled ∷ []; opened = 7 ∷ [] }

in_use-Reach : Reach mills insertion_sort settings (start (x ∷ y ∷ [])) in_use
unfolding new_connection
in_use-Reach = next here (dials 0 x dial refl)

abbrev pub returned : World ℕ
returned = record in_use {
  pool = (add mills insertion_sort settings (3 * second) dialled in_use.pool).0;
  lent = [];
}

pub returned-Reach : Reach mills insertion_sort settings (start (x ∷ y ∷ [])) returned
returned-Reach = next in_use-Reach (returns (3 * second) [] dialled [] refl refl)

Reach-Accounted_example : Accounted returned
Reach-Accounted_example =
    Reach-Accounted mills insertion_sort settings (x ∷ y ∷ []) returned returned-Reach

Reach-Ordered_example : Ordered mills returned.pool.upstreams
Reach-Ordered_example =
    Reach-Ordered mills insertion_sort insertion_sort-IsSort settings (x ∷ y ∷ []) returned
      ((refl, tt), (tt, tt)) returned-Reach

-- One connection to y, and x cooling.
abbrev warm : ConnPool ℕ
warm = record {
  upstreams = record x { wakeup_time = 9 * second } ∷ record y { weight = 20 } ∷ [];
  cache =
      (get_address x, dialled ∷ [])
      ∷ (get_address y, new_entry 8 (record y { weight = 20 }) ∷ [])
      ∷ [];
  closing = [];
  closed = [];
}

warm-real : All (λ u. is_no_upstream mills u ≡ false) warm.upstreams
unfolding is_no_upstream text_eq
warm-real = (refl, (refl, tt))

get_best_upstream-find_example :
    get_best_upstream mills (λ _. 4 * second) warm
    ≡ or_else (find (has_conns mills (4 * second) warm.cache) warm.upstreams) (
        or_else
          (find (is_open mills (4 * second) warm.cache) warm.upstreams)
          (head? warm.upstreams))
get_best_upstream-find_example = get_best_upstream-find mills (4 * second) warm warm-real

-- What Get returns from the warm pool: the connection to y.
abbrev taken : Got mills
taken = record {
  pool = record warm { cache = (get_address x, dialled ∷ []) ∷ (get_address y, []) ∷ [] };
  ce = new_entry 8 (record y { weight = 20 });
  upstream = no_upstream mills;
}

warm-get : get mills (λ _. 4 * second) warm ≡ some taken
unfolding get get_best_upstream best_loop is_no_upstream lookup insert text_eq get_address
    sprintf_pair is_cooling
warm-get = refl

-- A connection to x on which an exchange has failed.
abbrev broken : ConnEntry ℕ
broken = add_error (new_entry 9 x)

broken-error : broken.error ≡ true
unfolding add_error
broken-error = refl

broken-known : is_some (get_upstream_by_address (address_of broken) warm.upstreams) ≡ true
unfolding add_error new_entry address_of get_upstream_by_address get_address
broken-known = ground (arith, text_eq_refl (sprintf_pair x.name (effective_port x.port)))

add-error_example :
    let q = (add mills insertion_sort settings (4 * second) broken warm).0 in
    (cached (address_of broken) q ≡ broken ∷ [])
    × (q.closing ≡ cached (address_of broken) warm ++ warm.closing)
    × (q.closed ≡ warm.closed)
add-error_example =
    add-error mills insertion_sort settings (4 * second) broken warm broken-error broken-known

abbrev refuse : Text → Dialled
refuse a = record { conn = none; duration = 3 * second }

get-failed_dial_example :
    let q = (new_connection settings (4 * second) x refuse (start (x ∷ y ∷ [])).pool).0 in
    (q.upstreams ≡ cooldown (4 * second) (cooldown_duration settings) x ∷ y ∷ [])
    × (q.cache ≡ [])
    × (get mills (λ _. 4 * second) q
        ≡ some (record {
          pool = q;
          ce = no_conn_entry mills;
          upstream = cooldown (4 * second) (cooldown_duration settings) x;
        }))
get-failed_dial_example =
    get-failed_dial mills settings (4 * second) (λ _. 4 * second) refuse x (y ∷ [])
      (start (x ∷ y ∷ [])).pool refl refl refl
