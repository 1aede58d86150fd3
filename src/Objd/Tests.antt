-- ===== src/Objd/Tests.antt =====
-- A table of three entries, of which the second is free, and runs on it.
use lttng_ust.Common.{ℕ, ◌≡◌, refl, true, false, [], ◌∷◌, some, arith}
use lttng_ust.Objd.{
  Obj, Table, list_end, empty_table, zero_obj, new_obj, objd_alloc, objd_get, objd_free, objd_unref,
  grow,
}
use lttng_ust.Objd.Free.{stop, link, IsTable}
use lttng_ust.Objd.Alloc.{Allocated, objd_alloc-Allocated}
use lttng_ust.Objd.Release.{KeepsObject, Released, objd_unref-Released, objd_alloc-reuses}

abbrev session : Obj
session = new_obj 4096 1 7 (115 ∷ [])

-- Its word keeps -1: the end of the free list.
abbrev free_obj : Obj
free_obj = record zero_obj { private_data = list_end }

abbrev table : Table
table = record {
  array = session ∷ free_obj ∷ session ∷ [];
  len = 3;
  allocated_len = 3;
  freelist_head = 1;
}

table-IsTable : IsTable table
table-IsTable = record {
  free = 1 ∷ [];
  chained = link free_obj refl refl (omega arith) (omega arith) stop;
  allocated = refl;
  used = omega arith;
  bounded = omega arith;
}

leave : ℕ → Table → Table
leave id t = t

leave-KeepsObject : KeepsObject leave
unfolding leave
leave-KeepsObject = record { table = λ id t v. v; object = λ id t v e. e }

-- An empty table grows to one entry.
objd_alloc-first :
    objd_alloc (λ _. true) session empty_table
    ≡ some
        (0, record { array = session ∷ []; len = 1; allocated_len = 1; freelist_head = list_end })
unfolding objd_alloc grow
objd_alloc-first = refl

objd_alloc-Allocated_example : Allocated table session 1 record {
  array = session ∷ session ∷ session ∷ [];
  len = 3;
  allocated_len = 3;
  freelist_head = list_end;
}
unfolding objd_alloc
objd_alloc-Allocated_example =
    objd_alloc-Allocated (λ _. false) session table (ground arith) table-IsTable (omega arith) refl

objd_unref-Released_example : Released table 2 true (objd_unref leave 2 true table)
objd_unref-Released_example = objd_unref-Released leave-KeepsObject table 2 true table-IsTable

objd_alloc-reuses_example :
    (u : Table) × (objd_alloc (λ _. false) session (objd_free 2 table) ≡ some (2, u))
    × (u.freelist_head ≡ 1)
unfolding objd_get
objd_alloc-reuses_example =
    objd_alloc-reuses (λ _. false) session table 2 session table-IsTable refl
