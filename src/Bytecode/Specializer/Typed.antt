-- ===== src/Bytecode/Specializer/Typed.antt =====
-- The static types of the specializer's stack, over the interpreter's registers and memory, and the
-- moves on the stack under them.
use mathlib.Core.Option
use mathlib.Core.Option.{some-injective}
use mathlib.Core.Path.{subst}
use lttng_ust.Common.{
  ℕ, zero, suc, ◌+◌, ◌-◌, ◌<◌, ◌≡◌, ◌≢◌, refl, sym, ap, ◌∙◌, arith, true, false, if◌then◌else◌,
  Bool, Bool-cases, inl, inr, List, [], ◌∷◌, length, length-modify, get_elem?,
  get_elem?-modify_self, modify, Option, some, none, ltb,
}
use lttng_ust.Bytecode.{EntryType}
use lttng_ust.Bytecode.Interpreter.Machine.{
  Entry, Machine, Outcome, running, estack_push, estack_pop, pushed, popped, set_ax, spill, ◌>>=◌,
}
use lttng_ust.Bytecode.Safety.Stack.{Holds, get_elem?-some}
use lttng_ust.Bytecode.Specializer.Types.{VEntry}
use lttng_ust.Bytecode.Specializer.Choices.{Covers}

-- The entries from a place in memory down.
abbrev pub Below : List VEntry → ℕ → List Entry → Type 0
Below [] i e = Unit
Below (x ∷ live) i e =
    ((y : Entry) × (get_elem? e i ≡ some y) × Covers x.type y.type) × Below live (i - 1) e

-- The entries under the top.
abbrev pub Under : List VEntry → Machine → Type 0
Under [] m = Unit
Under (b ∷ live) m = Covers b.type m.bx_t × Below live (m.top - 2) m.e

abbrev pub Typed : List VEntry → Machine → Type 0
Typed [] m = Unit
Typed (a ∷ live) m = Covers a.type m.ax_t × Under live m

-- The stack is as high as the static one, whose types cover those of its entries.
abbrev pub IsTyped : ℕ → List VEntry → Machine → Type 0
IsTyped n live m = Holds n (length live) m × Typed live m

-- Where the program goes on, the condition.
abbrev pub OnRun : (ℕ → Machine → Type 0) → Outcome → Type 0
OnRun P (running pc m) = P pc m
OnRun P _ = Unit

pub OnRun-bind :
    {A : Type 0} (P : ℕ → Machine → Type 0) (o : Option A) (f : A → Outcome)
    → ((a : A) → o ≡ some a → OnRun P (f a))
    → OnRun P (o >>= f)
OnRun-bind P none f h = tt
OnRun-bind P (some a) f h = h a refl

pub OnRun-if :
    (P : ℕ → Machine → Type 0) (b : Bool) (x y : Outcome)
    → (b ≡ true → OnRun P x)
    → (b ≡ false → OnRun P y)
    → OnRun P (if b then x else y)
OnRun-if P true x y h h' = h refl
OnRun-if P false x y h h' = h' refl

get_elem?-modify_ne :
    (xs : List Entry) (i j : ℕ) (f : Entry → Entry)
    → i ≢ j
    → get_elem? (modify xs i f) j ≡ get_elem? xs j
get_elem?-modify_ne [] i j f h = refl
get_elem?-modify_ne (x ∷ xs) zero zero f h = absurd (h refl)
get_elem?-modify_ne (x ∷ xs) zero (suc j) f h = refl
get_elem?-modify_ne (x ∷ xs) (suc i) zero f h = refl
get_elem?-modify_ne (x ∷ xs) (suc i) (suc j) f h = get_elem?-modify_ne xs i j f (λ e. h (ap suc e))

-- A write above them.
Below-modify :
    (live : List VEntry) (i j : ℕ) (e : List Entry) (f : Entry → Entry)
    → i < j
    → Below live i e
    → Below live i (modify e j f)
Below-modify [] i j e f h b = tt
Below-modify (x ∷ live) i j e f h ((y, found, c), rest) = (
  (y, get_elem?-modify_ne e j i f (λ same. omega (arith, same, h)) ∙ found, c),
  Below-modify live (i - 1) j e f (omega arith) rest,
)

pub Under-set_ax :
    (live : List VEntry) (m : Machine) (x : Entry)
    → 0 < m.top
    → Under live m
    → Under live (set_ax x m)
Under-set_ax [] m x h u = tt
Under-set_ax (b ∷ live) m x h (c, u) =
    (c, Below-modify live (m.top - 2) m.top m.e _ (omega arith) u)

pub Under-registers :
    (live : List VEntry) (m : Machine) (v : ℕ) (d : EntryType)
    → Under live m
    → Under live (record m { ax = v; ax_t = d })
Under-registers [] m v d u = tt
Under-registers (b ∷ live) m v d u = u

-- What a push leaves under the new top.
pub Under-pushed :
    {n : ℕ} (live : List VEntry) (m : Machine)
    → m.top < n
    → IsTyped n live m
    → Under live (pushed m)
Under-pushed [] m h t = tt
Under-pushed (a ∷ []) m h (at, (c, u)) = (c, tt)
Under-pushed (a ∷ b ∷ live) m h (at, (c, (d, u))) =
    let (x, found) = get_elem?-some m.e (m.top - 1) (omega (arith, at.top, at.places)) in
    let here : m.top + 1 - 2 ≡ m.top - 1 = omega arith in
    let under : m.top - 1 - 1 ≡ m.top - 2 = omega arith in
    rw (here, under)
      (
        c,
        (
          (
            spill m.bx m.bx_t x,
            get_elem?-modify_self m.e (m.top - 1) (spill m.bx m.bx_t)
                ∙ ap (Option.map (spill m.bx m.bx_t)) found,
            d,
          ),
          Below-modify live (m.top - 2) (m.top - 1) m.e _ (omega (arith, at.top)) u,
        ),
      )

pub Under-popped :
    {n : ℕ} (a b : VEntry) (live : List VEntry) (m : Machine) (x : Entry)
    → IsTyped n (a ∷ b ∷ live) m
    → get_elem? m.e (m.top - 2) ≡ some x
    → Under live (popped x m)
Under-popped a b [] m x t e = tt
Under-popped a b (d ∷ live) m x (at, (ca, (cb, ((y, found, c), rest)))) e =
    let here : m.top - 1 - 2 ≡ m.top - 2 - 1 = omega arith in
    let same : y ≡ x = some-injective y x (sym found ∙ e) in
    rw here (subst (λ (z : Entry). Covers d.type z.type) same c, rest)

module _ {n : ℕ} (live : List VEntry) (m : Machine) (t : IsTyped n live m) where
  pub Typed-push :
      (P : ℕ → Machine → Type 0) (f : Machine → Outcome)
      → ((m' : Machine) → Holds n (suc (length live)) m' → Under live m' → OnRun P (f m'))
      → OnRun P (estack_push n m >>= f)
  unfolding estack_push
  Typed-push P f k = elim (Bool-cases (ltb m.top (n - 1))) [
    | inl room ↦ rw room (
        k (pushed m)
          (record { top = omega (arith, t.0.top); places = length-modify m.e _ _ ∙ t.0.places })
          (Under-pushed live m (ground (arith, room)) t))
    | inr full ↦ rw full tt
  ]

found-OnRun :
    (P : ℕ → Machine → Type 0) (m : Machine) (f : Machine → Outcome) (o : Option Entry)
    → ((x : Entry) → o ≡ some x → OnRun P (f (popped x m)))
    → OnRun P (elim o [ none ↦ none | some x ↦ some (popped x m) ] >>= f)
found-OnRun P m f none k = tt
found-OnRun P m f (some x) k = k x refl

pub Typed-pop :
    {n : ℕ} (P : ℕ → Machine → Type 0) (a b : VEntry) (live : List VEntry) (m : Machine)
    (f : Machine → Outcome)
    → IsTyped n (a ∷ b ∷ live) m
    → ((m' : Machine) → IsTyped n (b ∷ live) m' → OnRun P (f m'))
    → OnRun P (estack_pop m >>= f)
unfolding estack_pop
Typed-pop P a b live m f t k =
    let at = t.0 in
    let full : ltb 1 m.top ≡ true = ground (arith, at.top) in
    rw full (
      found-OnRun P m f (get_elem? m.e (m.top - 2)) (λ x found. k (popped x m) (
        record { top = omega (arith, at.top); places = at.places },
        (t.1.1.0, Under-popped a b live m x t found),
      )))
