-- ===== src/Bytecode/Specializer/Area.antt =====
-- The data area of a program keeps what is pushed, at aligned offsets.
use native.Mathlib.Nat.{add-mod-mod, mul-mod_right, le-max_left, mul-suc}
use lttng_ust.Common.{
  ℕ, zero, suc, ◌+◌, ◌-◌, ◌*◌, ◌%◌, ◌^◌, ◌≤◌, ◌<◌, ◌≡◌, refl, ap, sym, ◌∙◌, ◌++◌, arith, Bool, true,
  false, if◌then◌else◌, ltb, ltb→lt, ltb_false→le, List, [], ◌∷◌, Option, some, none, length,
  length-append, length-replicate, length-set, set, get_elem?, get_elem?-set_self, get_elem?-set_ne,
}
use lttng_ust.Common.Words.{word_mod, mod_of_mod_mul}
use lttng_ust.RingBuffer.Order.{get_count_order, le-pow-get_count_order}
use lttng_ust.RingBuffer.Reserve.{offset_align}
use lttng_ust.Bytecode.Specializer.Data.{
  bytecode_max_data_len, Area, Reserved, einval, enomem, reserved, new_alloc_len, enlarged, taken,
  bytecode_reserve_data, write, pushed_data, bytecode_push_data,
}

-- The allocation is as long as it says, the data in use is inside it and below the limit.
pub record IsArea (a : Area) : Type 0 where
  pub whole : length a.bytes ≡ a.data_alloc_len
  pub inside : a.data_len ≤ a.data_alloc_len
  pub below : a.data_len ≤ bytecode_max_data_len

-- What a reservation of `len` bytes leaves of the area `a`.
pub record Extends (a : Area) (align len offset : ℕ) (a' : Area) : Type 0 where
  pub area : IsArea a'
  pub behind : a.data_len ≤ offset
  pub end : a'.data_len ≡ offset + len
  pub aligned : offset % align ≡ 0
  pub kept : (i : ℕ) → i < a.data_len → get_elem? a'.bytes i ≡ get_elem? a.bytes i

get_elem?-append :
    (xs ys : List ℕ) (i : ℕ) → i < length xs → get_elem? (xs ++ ys) i ≡ get_elem? xs i
get_elem?-append [] ys i h = elim h [ ]
get_elem?-append (x ∷ xs) ys zero h = refl
get_elem?-append (x ∷ xs) ys (suc i) h = get_elem?-append xs ys i (omega arith)

pub length-write : (p xs : List ℕ) (i : ℕ) → length (write xs i p) ≡ length xs
unfolding write
length-write [] xs i = refl
length-write (b ∷ p) xs i = length-write p (set xs i b) (suc i) ∙ length-set xs i b

write-below : (p xs : List ℕ) (i j : ℕ) → j < i → get_elem? (write xs i p) j ≡ get_elem? xs j
unfolding write
write-below [] xs i j h = refl
write-below (b ∷ p) xs i j h =
    write-below p (set xs i b) (suc i) j (omega arith)
    ∙ get_elem?-set_ne xs b (λ e. ground (arith, e))

write-at :
    (p xs : List ℕ) (i j : ℕ)
    → j < length p
    → i + length p ≤ length xs
    → get_elem? (write xs i p) (i + j) ≡ get_elem? p j
unfolding write
write-at [] xs i j h h' = elim h [ ]
write-at (b ∷ p) xs i zero h h' =
    let at : i + 0 ≡ i = omega arith in
    rw at
      (write-below p (set xs i b) (suc i) i (omega arith) ∙ get_elem?-set_self xs i b (omega arith))
write-at (b ∷ p) xs i (suc j) h h' =
    let at : i + suc j ≡ suc i + j = omega arith in
    rw at (write-at p (set xs i b) (suc i) j (omega arith) (omega (arith, length-set xs i b)))

offset_align-mod :
    (drift align k : ℕ)
    → align * k ≡ word_mod
    → drift ≤ bytecode_max_data_len
    → (drift + offset_align drift align) % align ≡ 0
unfolding offset_align
offset_align-mod drift align k range h =
    ap (λ w. (drift + (align + word_mod - drift) % w % align) % align) (sym range)
    ∙ ap (λ r. (drift + r) % align) (mod_of_mod_mul (align + word_mod - drift) align k)
    ∙ add-mod-mod drift (align + word_mod - drift) align
    ∙ ap (λ n. n % align) (omega (arith, range, h, mul-suc align k))
    ∙ mul-mod_right align (suc k)

le-new_alloc_len : (n old : ℕ) → 0 < n → n ≤ bytecode_max_data_len → n ≤ new_alloc_len n old
unfolding new_alloc_len
le-new_alloc_len n old h h' =
    omega (
      arith,
      le-pow-get_count_order n h (omega arith),
      le-max_left (2 ^ get_count_order n) (old * 2),
    )

enlarged-bytes :
    (n : ℕ) (a : Area) (i : ℕ)
    → IsArea a
    → i < a.data_len
    → get_elem? (enlarged n a).bytes i ≡ get_elem? a.bytes i
enlarged-bytes n a i ok h = get_elem?-append a.bytes _ i (omega (arith, ok.whole, ok.inside))

-- Where a reservation succeeds, the condition.
abbrev Gives : (ℕ → Area → Type 0) → Reserved → Type 0
Gives P einval = Unit
Gives P enomem = Unit
Gives P (reserved offset a) = P offset a

Gives-if :
    (P : ℕ → Area → Type 0) (b : Bool) (x y : Reserved)
    → (b ≡ true → Gives P x)
    → (b ≡ false → Gives P y)
    → Gives P (if b then x else y)
Gives-if P true x y f g = f refl
Gives-if P false x y f g = g refl

module _ (a : Area) (align k len : ℕ) (ok : IsArea a) (range : align * k ≡ word_mod) where
  -- `b` is the area, in which there is room now.
  taken-Extends :
      (b : Area)
      → b.data_len ≡ a.data_len
      → length b.bytes ≡ b.data_alloc_len
      → a.data_len + offset_align a.data_len align + len ≤ b.data_alloc_len
      → a.data_len + offset_align a.data_len align + len ≤ bytecode_max_data_len
      → ((i : ℕ) → i < a.data_len → get_elem? b.bytes i ≡ get_elem? a.bytes i)
      → Gives (Extends a align len) (taken (offset_align a.data_len align) len b)
  taken-Extends b same whole room below kept = record {
    area = record {
      whole = whole;
      inside = omega (arith, same, room);
      below = omega (arith, same, below);
    };
    behind = omega (arith, same);
    end = refl;
    aligned =
        ap (λ n. (n + offset_align a.data_len align) % align) same
        ∙ offset_align-mod a.data_len align k range ok.below;
    kept = kept;
  }

  reserve-Extends :
      (alloc : ℕ → Bool) → Gives (Extends a align len) (bytecode_reserve_data alloc a align len)
  unfolding bytecode_reserve_data
  reserve-Extends alloc =
      let padding = offset_align a.data_len align in
      let new_len = a.data_len + padding + len in
      let n = new_alloc_len new_len a.data_alloc_len in
      Gives-if _ (ltb bytecode_max_data_len new_len) _ _ (λ _. tt)
        (λ fits.
          let below : new_len ≤ bytecode_max_data_len = ltb_false→le _ _ fits in
          Gives-if _ (ltb a.data_alloc_len new_len) _ _
            (λ more.
              let grows : a.data_alloc_len < new_len = ltb→lt _ _ more in
              let room = le-new_alloc_len new_len a.data_alloc_len (omega (arith, grows)) below in
              Gives-if _ (alloc n) _ _
                (λ _.
                  taken-Extends (enlarged n a) refl
                    (length-append a.bytes _
                      ∙ omega (
                        arith,
                        ok.whole,
                        room,
                        grows,
                        length-replicate {A = ℕ} (n - a.data_alloc_len) 0,
                      ))
                    room below (λ i h. enlarged-bytes n a i ok h))
                (λ _. tt))
            (λ enough. taken-Extends a refl ok.whole (ltb_false→le _ _ enough) below (λ i h. refl)))

-- The bytes pushed stand at the offset.
abbrev pub Stores : Area → List ℕ → ℕ → ℕ → Area → Type 0
Stores a p align offset a' =
    Extends a align (length p) offset a'
    × ((j : ℕ) → j < length p → get_elem? a'.bytes (offset + j) ≡ get_elem? p j)

abbrev Given : (ℕ → Area → Type 0) → Option (ℕ × Area) → Type 0
Given P none = Unit
Given P (some (offset, a)) = P offset a

pushed-Given :
    (a : Area) (p : List ℕ) (align : ℕ) (r : Reserved)
    → Gives (Extends a align (length p)) r
    → Given (Stores a p align) (pushed_data p r)
pushed-Given a p align einval g = tt
pushed-Given a p align enomem g = tt
pushed-Given a p align (reserved offset b) g = (
  record {
    area = record {
      whole = length-write p b.bytes offset ∙ g.area.whole;
      inside = g.area.inside;
      below = g.area.below;
    };
    behind = g.behind;
    end = g.end;
    aligned = g.aligned;
    kept = λ i h. write-below p b.bytes offset i (omega (arith, g.behind, h)) ∙ g.kept i h;
  },
  λ j h. write-at p b.bytes offset j h (omega (arith, g.end, g.area.inside, g.area.whole)),
)

-- Data is pushed onto an area of which the allocation is as long as it says and the data in use
-- inside it and below the limit, for an alignment that divides 2 ^ 64. Where that succeeds, the area
-- is such an area again; the offset is aligned and behind what was in use, the new end is behind
-- the data, the bytes stand at the offset, and what was in use is as before.
pub bytecode_push_data-Stores :
    (alloc : ℕ → Bool) (a : Area) (p : List ℕ) (align k : ℕ) {offset : ℕ} {a' : Area}
    → IsArea a
    → align * k ≡ word_mod
    → bytecode_push_data alloc a p align ≡ some (offset, a')
    → Stores a p align offset a'
unfolding bytecode_push_data
bytecode_push_data-Stores alloc a p align k ok range e =
    rw e at (pushed-Given a p align _ (reserve-Extends a align k (length p) ok range alloc))
