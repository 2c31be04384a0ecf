-- ===== src/Cache/Keys.antt =====
-- The keys of the cache: FormatKey, and which entry a key leads to.
use funkyd.Base.{ℕ, ◌≡◌, refl, some, [], ◌∷◌, arith, All}
use funkyd.Base.Int.{pos}
use funkyd.Base.Text.{Text, text_eq_iff}
use funkyd.Base.Text.Decimal.{sprintf_pair-injective}
use funkyd.Base.Map.{Map, lookup, insert, delete}
use funkyd.Cache.{Response, key_of, format_key}

pos-injective : (m n : ℕ) → pos m ≡ pos n → m ≡ n
pos-injective m n e = cc

-- Two keys are equal only for the same name and the same query type, whatever colons the names
-- hold.
pub key_of-injective : (s t : Text) (m n : ℕ) → key_of s m ≡ key_of t n → (s ≡ t) × (m ≡ n)
unfolding key_of
key_of-injective s t m n e =
    let (names, types) = sprintf_pair-injective s t (pos m) (pos n) e in
    (names, pos-injective m n types)

-- Every entry stands under its own key.
abbrev pub IsKeyed : Text × Response → Type 0
IsKeyed e = e.0 ≡ format_key e.1

pub lookup-IsKeyed :
    (k : Text) (m : Map Response) (r : Response)
    → All IsKeyed m
    → lookup k m ≡ some r
    → k ≡ format_key r
unfolding lookup
lookup-IsKeyed k [] r h e = cc
lookup-IsKeyed k ((j, w) ∷ m) r h e = ground (arith, text_eq_iff j k, lookup-IsKeyed k m r h.1)

-- In a map whose responses all stand under their own keys, a response that is found under the key
-- of a name and a query type has that name and that type.
pub lookup-key_of :
    (name : Text) (qtype : ℕ) (m : Map Response) (r : Response)
    → All IsKeyed m
    → lookup (key_of name qtype) m ≡ some r
    → (name ≡ r.name) × (qtype ≡ r.qtype)
lookup-key_of name qtype m r h e =
    key_of-injective name r.name qtype r.qtype (lookup-IsKeyed _ m r h e)

pub insert-IsKeyed :
    (r : Response) (m : Map Response) → All IsKeyed m → All IsKeyed (insert (format_key r) r m)
unfolding insert
insert-IsKeyed r [] h = (refl, tt)
insert-IsKeyed r ((j, w) ∷ m) h = ground (arith, insert-IsKeyed r m h.1)

pub delete-IsKeyed : (k : Text) (m : Map Response) → All IsKeyed m → All IsKeyed (delete k m)
unfolding delete
delete-IsKeyed k [] h = tt
delete-IsKeyed k ((j, w) ∷ m) h = ground (arith, delete-IsKeyed k m h.1)
