-- ===== src/Bytecode/Safety/Trip.antt =====
-- A push and a pop after it.
use mathlib.Core.Option
use lttng_ust.Common.{ℕ, ◌+◌, ◌-◌, ◌<◌, ◌≡◌, ◌∙◌, ap, arith, some, get_elem?, get_elem?-modify_self}
use lttng_ust.Bytecode.Interpreter.Machine.{
  Entry, Machine, estack_push, estack_pop, pushed, popped, spill,
}
use lttng_ust.Bytecode.Safety.Stack.{Holds, get_elem?-some}

estack_pop-some :
    (m : Machine) (x : Entry)
    → 1 < m.top
    → get_elem? m.e (m.top - 2) ≡ some x
    → estack_pop m ≡ some (popped x m)
unfolding estack_pop
estack_pop-some m x full found = rw found (ground arith)

-- On a stack with room, a push goes through; a pop after it gives back the top and both registers
-- with their types, and leaves memory as the push did.
pub estack_pop-estack_push :
    {n h : ℕ} (m : Machine)
    → Holds n h m
    → h + 2 < n
    → (estack_push n m ≡ some (pushed m))
      × (estack_pop (pushed m) ≡ some (record m { e = (pushed m).e }))
unfolding estack_push estack_pop
estack_pop-estack_push m at room =
    let (x, found) = get_elem?-some m.e (m.top - 1) (omega (arith, at.top, at.places)) in
    let below : m.top + 1 - 2 ≡ m.top - 1 = omega arith in
    let top : m.top + 1 - 1 ≡ m.top = omega arith in
    let kept : get_elem? (pushed m).e (m.top - 1) ≡ some (spill m.bx m.bx_t x) =
      get_elem?-modify_self m.e (m.top - 1) (spill m.bx m.bx_t)
      ∙ ap (Option.map (spill m.bx m.bx_t)) found in
    (
      ground (arith, at.top),
      estack_pop-some (pushed m) (spill m.bx m.bx_t x) (omega (arith, at.top)) (rw below kept)
          ∙ rw top,
    )
