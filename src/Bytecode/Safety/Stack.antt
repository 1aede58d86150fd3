-- ===== src/Bytecode/Safety/Stack.antt =====
-- Conditions on what an instruction of the interpreter leaves, and the moves on its stack under them.
use lttng_ust.Common.{
  zero, suc, List, [], ◌∷◌, ℕ, ◌+◌, ◌-◌, ◌<◌, ◌≡◌, refl, ◌∙◌, true, false, if◌then◌else◌, Bool,
  length, length-modify, get_elem?, arith, Option, some,
}
use lttng_ust.Bytecode.{EntryType}
use lttng_ust.Bytecode.Interpreter.Machine.{
  Entry, Machine, Outcome, over, error, finished, running, estack_push, estack_pop, estack_ax,
  estack_bx, pushed, popped, set_ax, ◌>>=◌,
}

-- No fault, and where the program goes on, the condition.
pub data Post (P : ℕ → Machine → Type 0) : Outcome → Type 0 where
  reads_over : Post P over
  fails : Post P error
  ends : {v : ℕ} {m : Machine} → Post P (finished v m)
  goes_on : {pc : ℕ} {m : Machine} → P pc m → Post P (running pc m)

-- The machine has a stack of `n` places, of which `h` are in use.
pub record Holds (n h : ℕ) (m : Machine) : Type 0 where
  pub top : m.top ≡ h + 1
  pub places : length m.e ≡ n

pub get_elem?-some {ℓ} :
    {A : Type ℓ} (xs : List A) (i : ℕ) → i < length xs → (x : A) × (get_elem? xs i ≡ some x)
get_elem?-some [] i h = elim h [ ]
get_elem?-some (x ∷ xs) zero h = (x, refl)
get_elem?-some (x ∷ xs) (suc i) h = get_elem?-some xs i (omega arith)

Post-some {ℓ} :
    {A : Type ℓ} {P : ℕ → Machine → Type 0} {o : Option A} (f : A → Outcome) (a : A)
    → o ≡ some a
    → Post P (f a)
    → Post P (o >>= f)
Post-some f a e p = rw e p

module _ {P : ℕ → Machine → Type 0} {n h : ℕ} (m : Machine) (at : Holds n h m) where
  -- There is room for a push where more than `h + 2` places are.
  pub Post-push :
      (f : Machine → Outcome)
      → h + 2 < n
      → ((m' : Machine) → Holds n (suc h) m' → Post P (f m'))
      → Post P (estack_push n m >>= f)
  unfolding estack_push
  Post-push f room k =
      Post-some f (pushed m) (ground (arith, at.top))
        (k _ (record { top = omega (arith, at.top); places = length-modify m.e _ _ ∙ at.places }))

  pub Post-ax :
      (f : Entry → Outcome)
      → 0 < h
      → h + 1 < n
      → ((x : Entry) → Post P (f x))
      → Post P (estack_ax m >>= f)
  unfolding estack_ax
  Post-ax f full inside k =
      let (x, e) = get_elem?-some m.e m.top (omega (arith, at.top, at.places)) in
      Post-some f x (rw e (ground (arith, at.top))) (k x)

  pub Post-bx :
      (f : Entry → Outcome)
      → 1 < h
      → h < n
      → ((x : Entry) → Post P (f x))
      → Post P (estack_bx m >>= f)
  unfolding estack_bx
  Post-bx f full inside k =
      let (x, e) = get_elem?-some m.e (m.top - 1) (omega (arith, at.top, at.places)) in
      Post-some f x (rw e (ground (arith, at.top))) (k x)

pub Post-pop :
    {P : ℕ → Machine → Type 0} {n h : ℕ} (m : Machine) (f : Machine → Outcome)
    → Holds n (suc h) m
    → suc h < n
    → ((m' : Machine) → Holds n h m' → Post P (f m'))
    → Post P (estack_pop m >>= f)
unfolding estack_pop
Post-pop m f at inside k =
    let (x, e) = get_elem?-some m.e (m.top - 2) (omega (arith, at.top, at.places)) in
    Post-some f (popped x m) (rw e (ground (arith, at.top)))
      (k _ (record { top = omega (arith, at.top); places = at.places }))

-- At an offset, with a stack of `n` places of which `h` are in use.
abbrev pub At : ℕ → ℕ → ℕ → ℕ → Machine → Type 0
At n pc h q m = (q ≡ pc) × Holds n h m

pub Post-if :
    {P : ℕ → Machine → Type 0} (b : Bool) {x y : Outcome}
    → Post P x
    → Post P y
    → Post P (if b then x else y)
Post-if true p q = p
Post-if false p q = q

module _ {n h : ℕ} (m : Machine) (at : Holds n h m) where
  -- Other registers, and another entry in memory.
  pub Holds-registers : (a : ℕ) (t : EntryType) → Holds n h (record m { ax = a; ax_t = t })
  Holds-registers a t = record { top = at.top; places = at.places }

  pub Holds-memory :
      (a : ℕ) (t : EntryType) (x : Entry) → Holds n h (record (set_ax x m) { ax = a; ax_t = t })
  Holds-memory a t x = record {
    top = at.top;
    places = length-modify m.e m.top (λ _. x) ∙ at.places;
  }
