-- ===== src/Objd/Free.antt =====
-- The free list of the table of object descriptors.
use lttng_ust.Common.{
  ℕ, ◌^◌, ◌≤◌, ◌<◌, ◌≡◌, ◌≢◌, sym, ap, ◌∙◌, List, [], ◌∷◌, ◌++◌, length, get_elem?, set, arith,
  Option, some, none, get_elem?-set_ne, zero, suc,
}
use lttng_ust.Objd.{Obj, Table, list_end, freelist_next}

-- A descriptor is none of the listed ones.
abbrev pub Apart : ℕ → List ℕ → Type 0
Apart i [] = 0 ≤ i
Apart i (j ∷ js) = (i ≢ j) × Apart i js

abbrev f_count_of : Option Obj → ℕ
f_count_of none = 0
f_count_of (some o) = o.f_count

-- The free entries that the list links, from a head on: in use no longer, and each one once.
pub data Chain (array : List Obj) (len : ℕ) : ℕ → List ℕ → Type 0 where
  stop : Chain array len list_end []
  link :
      {i : ℕ} {js : List ℕ} (o : Obj)
      → get_elem? array i ≡ some o
      → o.f_count ≡ 0
      → i < len
      → Apart i js
      → Chain array len (freelist_next o) js
      → Chain array len i (i ∷ js)

pub Chain-set :
    {array : List Obj} {len head : ℕ} {js : List ℕ} (i : ℕ) (o : Obj)
    → Apart i js
    → Chain array len head js
    → Chain (set array i o) len head js
Chain-set i o h stop = stop
Chain-set {array} i o h (link p e z lt d c) =
    link p (get_elem?-set_ne array o h.0 ∙ e) z lt d (Chain-set i o h.1 c)

get_elem?-++ :
    (array more : List Obj) (i : ℕ) (o : Obj)
    → get_elem? array i ≡ some o
    → get_elem? (array ++ more) i ≡ some o
get_elem?-++ [] more i o e = ground arith
get_elem?-++ (x ∷ array) more zero o e = e
get_elem?-++ (x ∷ array) more (suc i) o e = get_elem?-++ array more i o e

-- More entries, and more of them in use.
pub Chain-grow :
    {array : List Obj} {len head : ℕ} {js : List ℕ} (more : List Obj) (len' : ℕ)
    → len ≤ len'
    → Chain array len head js
    → Chain (array ++ more) len' head js
Chain-grow more len' h stop = stop
Chain-grow {array} more len' h (link {i} p e z lt d c) =
    link p (get_elem?-++ array more i p e) z (omega arith) d (Chain-grow more len' h c)

pub Apart-len :
    {array : List Obj} {len head : ℕ} {js : List ℕ} (i : ℕ)
    → len ≤ i
    → Chain array len head js
    → Apart i js
Apart-len i h stop = omega arith
Apart-len i h (link p e z lt d c) = ((omega arith), Apart-len i h c)

-- An object in use is none of the free ones.
pub Apart-used :
    {array : List Obj} {len head : ℕ} {js : List ℕ} (i : ℕ) (o : Obj)
    → get_elem? array i ≡ some o
    → o.f_count ≢ 0
    → Chain array len head js
    → Apart i js
Apart-used i o e n stop = omega arith
Apart-used {array} i o e n (link p e' z lt d c) = (
  (λ same. n (ap (λ q. f_count_of q) (sym e ∙ ap (get_elem? array) same ∙ e') ∙ z)),
  Apart-used i o e n c,
)

pub Chain-len :
    {array : List Obj} {len head : ℕ} {js : List ℕ} (len' : ℕ)
    → len ≤ len'
    → Chain array len head js
    → Chain array len' head js
Chain-len len' h stop = stop
Chain-len len' h (link p e z lt d c) = link p e z (omega arith) d (Chain-len len' h c)

pub Chain-head :
    {array : List Obj} {len head : ℕ} {js : List ℕ}
    → len ≤ 2 ^ 31
    → Chain array len head js
    → head < 2 ^ 32
Chain-head h stop = omega arith
Chain-head h (link p e z lt d c) = omega arith

-- The invariant of the table.
pub record IsTable (t : Table) : Type 0 where
  pub free : List ℕ
  pub chained : Chain t.array t.len t.freelist_head free
  pub allocated : t.allocated_len ≡ length t.array
  pub used : t.len ≤ t.allocated_len
  pub bounded : t.allocated_len ≤ 2 ^ 31
