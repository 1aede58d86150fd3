-- ===== src/Counter/Index.antt =====
-- Indexes over the dimensions of a counter.
use native.Mathlib.Nat.{mul-le-mul_right, mod-eq_of_lt}
use lttng_ust.Common.{
  ℕ, ◌+◌, ◌*◌, ◌%◌, ◌^◌, ◌<◌, ◌≡◌, refl, sym, ◌∙◌, true, List, [], ◌∷◌, Option, some, none, arith,
}
use lttng_ust.Common.Words.{div_unique}
use lttng_ust.Counter.{
  Dimension, add_stride, lttng_counter_init_stride, lttng_counter_validate_indexes,
  lttng_counter_get_index,
}

abbrev pub product : List ℕ → ℕ
product [] = 1
product (e ∷ elems) = e * product elems

-- The dimensions of element counts: strides are the products of the counts behind.
pub data Strided : List ℕ → List Dimension → Type 0 where
  none_left : Strided [] []
  one_more :
      {elems : List ℕ} {dims : List Dimension} (e : ℕ)
      → 0 < e
      → Strided elems dims
      → Strided (e ∷ elems) (record { max_nr_elem = e; stride = product elems } ∷ dims)

add_stride-some :
    (e : ℕ) (o : Option (List Dimension × ℕ)) {dims : List Dimension} {total : ℕ}
    → add_stride e o ≡ some (dims, total)
    → (before : List Dimension) × (s : ℕ) × (o ≡ some (before, s))
      × (0 < e)
      × (dims ≡ record { max_nr_elem = e; stride = s } ∷ before)
      × (total ≡ s * e % 2 ^ 64)
add_stride-some e none h = ground arith
add_stride-some e (some (before, s)) h =
    (before, s, refl, ground (arith, h), ground (arith, h), ground (arith, h))

product-lt : (e p : ℕ) → 0 < e → e * p < 2 ^ 64 → p < 2 ^ 64
product-lt e p h lt = grind (arith, mul-le-mul_right)

pub init_stride-Strided :
    (elems : List ℕ) {dims : List Dimension} {total : ℕ}
    → lttng_counter_init_stride elems ≡ some (dims, total)
    → product elems < 2 ^ 64
    → Strided elems dims × (total ≡ product elems)
unfolding lttng_counter_init_stride
init_stride-Strided [] {dims} {total} e lt =
    let none_first : [] ≡ dims = ground arith in (rw (← none_first) none_left, ground arith)
init_stride-Strided (x ∷ elems) e lt =
    let (before, s, ih, pos, same, is) = add_stride-some x (lttng_counter_init_stride elems) e in
    let (strided, known) = init_stride-Strided elems ih (product-lt x (product elems) pos lt) in
    (rw (same, known) (one_more x pos strided), is ∙ rw known (grind (arith, mod-eq_of_lt)))

index-bound : (e p i g : ℕ) → i < e → g < p → i * p + g < e * p
index-bound e p i g h k = grind (arith, mul-le-mul_right p h)

-- The index of valid indexes is below the number of elements, and is the plain sum.
validated :
    (x p : ℕ) (dims : List Dimension) (i : ℕ) (indexes : List ℕ)
    → lttng_counter_validate_indexes (record { max_nr_elem = x; stride = p } ∷ dims) (i ∷ indexes)
      ≡ true
    → (i < x) × (lttng_counter_validate_indexes dims indexes ≡ true)
unfolding lttng_counter_validate_indexes
validated x p dims i indexes v = (ground arith, ground arith)

get_index-lt_product :
    {elems : List ℕ} {dims : List Dimension} (indexes : List ℕ)
    → Strided elems dims
    → product elems < 2 ^ 64
    → lttng_counter_validate_indexes dims indexes ≡ true
    → lttng_counter_get_index dims indexes < product elems
unfolding lttng_counter_get_index lttng_counter_validate_indexes
get_index-lt_product indexes none_left lt v = omega arith
get_index-lt_product [] (one_more e pos strided) lt v = ground arith
get_index-lt_product (i ∷ indexes) (one_more {elems} {dims} e pos strided) lt v =
    let (inside, rest) = validated e (product elems) dims i indexes v in
    let below = get_index-lt_product indexes strided (product-lt e (product elems) pos lt) rest in
    let bound =
      index-bound e (product elems) i (lttng_counter_get_index dims indexes) inside below in
    omega (arith, bound)

split_unique : (p i j g h : ℕ) → g < p → h < p → i * p + g ≡ j * p + h → (i ≡ j) × (g ≡ h)
split_unique p i j g h k l e =
    let same : i ≡ j =
      sym (div_unique p i (i * p + g) (grind arith) (grind arith))
      ∙ div_unique p j (i * p + g) (rw e (grind arith)) (rw e (grind arith)) in
    (same, omega (arith, rw same at e))

-- Two lists of valid indexes with one index are the same.
get_index_injective :
    (is js : List ℕ) {elems : List ℕ} {dims : List Dimension}
    → Strided elems dims
    → product elems < 2 ^ 64
    → lttng_counter_validate_indexes dims is ≡ true
    → lttng_counter_validate_indexes dims js ≡ true
    → lttng_counter_get_index dims is ≡ lttng_counter_get_index dims js
    → is ≡ js
unfolding lttng_counter_get_index lttng_counter_validate_indexes
get_index_injective [] [] s lt v w e = refl
get_index_injective [] (j ∷ js) none_left lt v w e = ground arith
get_index_injective [] (j ∷ js) (one_more x pos s) lt v w e = ground arith
get_index_injective (i ∷ is) [] none_left lt v w e = ground arith
get_index_injective (i ∷ is) [] (one_more x pos s) lt v w e = ground arith
get_index_injective (i ∷ is) (j ∷ js) none_left lt v w e = ground arith
get_index_injective (i ∷ is) (j ∷ js) (one_more {elems} {dims} x pos s) lt v w e =
    let p = product elems in
    let (inside, rest) = validated x p dims i is v in
    let (inside', rest') = validated x p dims j js w in
    let less = product-lt x p pos lt in
    let g = get_index-lt_product is s less rest in
    let g' = get_index-lt_product js s less rest' in
    let (same, below) =
      split_unique p i j _ _ g g'
        (omega (arith, e, index-bound x p i _ inside g, index-bound x p j _ inside' g')) in
    rw (same, get_index_injective is js s less rest rest' below)

module _ (elems : List ℕ) {dims : List Dimension} {total : ℕ}
    (e : lttng_counter_init_stride elems ≡ some (dims, total)) (lt : product elems < 2 ^ 64) where
  -- Where the strides are given for counts of which the product is a word: the number of elements is
  -- that product, and valid indexes give an index below it.
  pub get_index-lt :
      (indexes : List ℕ)
      → lttng_counter_validate_indexes dims indexes ≡ true
      → (total ≡ product elems) × (lttng_counter_get_index dims indexes < total)
  get_index-lt indexes v =
      let (strided, same) = init_stride-Strided elems e lt in
      (same, rw same (get_index-lt_product indexes strided lt v))

  -- Different valid indexes have different elements there.
  pub get_index_unique :
      (is js : List ℕ)
      → lttng_counter_validate_indexes dims is ≡ true
      → lttng_counter_validate_indexes dims js ≡ true
      → lttng_counter_get_index dims is ≡ lttng_counter_get_index dims js
      → is ≡ js
  get_index_unique is js = get_index_injective is js (init_stride-Strided elems e lt).0 lt
