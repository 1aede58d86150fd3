-- ===== src/Bytecode/Validator/Table.antt =====
-- The hash table of merge points: the calls that the validator makes of it, and what it relies on.
-- A key is an offset, and what is kept with it the stack's types there.
use lttng_ust.Common.{ℕ, ◌≡◌, ◌≢◌, List, Option, some, none}
use lttng_ust.Bytecode.{EntryType}

-- `lttng_ust_lfht_new`, `lookup`, `add_unique` (where the key is new), `del`, and how many nodes
-- `delete_all_nodes` finds.
pub record Table (T : Type 0) : Type 0 where
  pub new : T
  pub lookup : ℕ → T → Option (List EntryType)
  pub add : ℕ → List EntryType → T → T
  pub del : ℕ → T → T
  pub count : T → ℕ

pub record IsTable {T : Type 0} (h : Table T) : Type 0 where
  pub lookup_new : (k : ℕ) → h.lookup k h.new ≡ none
  pub lookup_add : (k : ℕ) (s : List EntryType) (t : T) → h.lookup k (h.add k s t) ≡ some s
  pub lookup_add_ne :
      (k j : ℕ) (s : List EntryType) (t : T) → k ≢ j → h.lookup j (h.add k s t) ≡ h.lookup j t
  pub lookup_del_ne : (k j : ℕ) (t : T) → k ≢ j → h.lookup j (h.del k t) ≡ h.lookup j t
  pub count_none : (t : T) → h.count t ≡ 0 → (k : ℕ) → h.lookup k t ≡ none
