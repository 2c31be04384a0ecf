-- ===== src/MutexServer/Startup.antt =====
-- The pool of a new server.
use funkyd.Base.{◌≡◌, refl, Bool, true, not, List, [], ◌∷◌, ◌++◌, All, All-append}
use funkyd.Base.Text.{Text, text_eq}
use funkyd.Base.Perms.{is_cons}
use funkyd.Config.{Configuration}
use funkyd.Dns.{Heap}
use funkyd.ConnPool.{ConnPool, add_upstream, new_conn_pool}
use funkyd.ConnPool.Ownership.{held}
use funkyd.ConnPool.Soundness.{IsSound, has_name}
use funkyd.MutexServer.Handler.{add_upstreams, new_mutex_server}

abbrev pub is_name : Text → Bool
is_name name = not (text_eq name [])

is_cons-append {ℓ} : {A : Type ℓ} (xs : List A) (x : A) → is_cons (xs ++ x ∷ []) ≡ true
is_cons-append [] x = refl
is_cons-append (y ∷ ys) x = refl

module _ {F : Type 0} (zero : F) where
  add_upstreams-names :
      (names : List Text) (p : ConnPool F)
      → All (λ n. is_name n ≡ true) names
      → All (λ u. has_name u ≡ true) p.upstreams
      → All (λ u. has_name u ≡ true) (add_upstreams zero names p).upstreams
  unfolding add_upstreams add_upstream
  add_upstreams-names [] p h n = n
  add_upstreams-names (name ∷ names) p h n =
      add_upstreams-names names _ h.1 (All-append _ p.upstreams _ n (h.0, tt))

  add_upstreams-is_cons :
      (names : List Text) (p : ConnPool F)
      → is_cons p.upstreams ≡ true
      → is_cons (add_upstreams zero names p).upstreams ≡ true
  unfolding add_upstreams add_upstream
  add_upstreams-is_cons [] p c = c
  add_upstreams-is_cons (name ∷ names) p c =
      add_upstreams-is_cons names _ (is_cons-append p.upstreams _)

  add_upstreams-held :
      (names : List Text) (p : ConnPool F) → held (add_upstreams zero names p) ≡ held p
  unfolding add_upstreams add_upstream
  add_upstreams-held [] p = refl
  add_upstreams-held (name ∷ names) p = add_upstreams-held names _

  add_upstreams-IsSound :
      (name : Text) (names : List Text)
      → All (λ n. is_name n ≡ true) (name ∷ names)
      → IsSound (add_upstreams zero (name ∷ names) new_conn_pool)
  unfolding add_upstreams add_upstream new_conn_pool
  add_upstreams-IsSound name names h = record {
    named =
        (add_upstreams-names (name ∷ names) new_conn_pool h tt, add_upstreams-is_cons names _ refl);
    connected = rw (add_upstreams-held (name ∷ names) new_conn_pool) tt;
  }

  -- If the configuration names at least one upstream, and none with an empty name, then the pool of
  -- a new server has an upstream, names for all upstreams and no entry without a connection.
  pub new_mutex_server-IsSound :
      (config : Configuration) (heap : Heap)
      → All (λ n. is_name n ≡ true) config.upstreams
      → is_cons config.upstreams ≡ true
      → IsSound (new_mutex_server zero config heap).conn_pool
  unfolding new_mutex_server
  new_mutex_server-IsSound config heap h c = go config.upstreams h c
    where
      go :
          (names : List Text)
          → All (λ n. is_name n ≡ true) names
          → is_cons names ≡ true
          → IsSound (add_upstreams zero names new_conn_pool)
      go [] h c = cc
      go (name ∷ names) h c = add_upstreams-IsSound name names h
