-- ===== src/RingBuffer/Backend/Exchange.antt =====
-- The exchange of sub-buffers between the reader and the writer's table in overwrite mode
-- (`update_read_sb_index`), and the pages that both have.
use mathlib.Core.List.{Perm}
use mathlib.Core.List.Perm
use mathlib.Core.Option
use lttng_ust.Common.{
  ℕ, Bool, true, false, ◌&&◌, ◌≢◌, zero, suc, ◌%◌, ◌^◌, ◌≡◌, refl, sym, ap, ◌∙◌, some, none, List,
  [], ◌∷◌, map, get_elem?, get_elem?-modify_self, set, modify, arith, Option-cases, inl, inr, ◌⊎◌,
}
use lttng_ust.RingBuffer.State.{overwrite, Buffer}
use lttng_ust.RingBuffer.Ids.{
  subbuffer_id_is_noref, subbuffer_id_compare_offset, subbuffer_id_set_noref_offset,
  subbuffer_id_clear_noref,
}
use lttng_ust.RingBuffer.Ids.Fields.{set_noref_offset-index, clear_noref-index}
use lttng_ust.RingBuffer.Backend.{
  updated, eperm, met, exchange_reader, update_read_sb_index, clear_noref, set_noref_offset,
}

abbrev pub page_index : ℕ → ℕ
page_index id = id % 2 ^ 32

-- The pages in use, the reader's first.
abbrev pub pages_in_use : Buffer → List ℕ
pages_in_use buf = page_index buf.buf_rsb ∷ map page_index buf.buf_wsb

map-set : (f : ℕ → ℕ) (xs : List ℕ) (i b : ℕ) → map f (set xs i b) ≡ set (map f xs) i (f b)
map-set f [] i b = refl
map-set f (x ∷ xs) zero b = refl
map-set f (x ∷ xs) (suc i) b = ap (λ l. f x ∷ l) (map-set f xs i b)

map-modify_same :
    (f g : ℕ → ℕ)
    → ((a : ℕ) → f (g a) ≡ f a)
    → (xs : List ℕ) (i : ℕ) → map f (modify xs i g) ≡ map f xs
map-modify_same f g same [] i = refl
map-modify_same f g same (x ∷ xs) zero = ap (λ t. t ∷ map f xs) (same x)
map-modify_same f g same (x ∷ xs) (suc i) = ap (λ l. f x ∷ l) (map-modify_same f g same xs i)

get_elem?-map :
    (f : ℕ → ℕ) (xs : List ℕ) (i a : ℕ)
    → get_elem? xs i ≡ some a
    → get_elem? (map f xs) i ≡ some (f a)
get_elem?-map f [] i a h = cc
get_elem?-map f (x ∷ xs) zero a h = ground arith
get_elem?-map f (x ∷ xs) (suc i) a h = get_elem?-map f xs i a h

-- Putting `b` at `i` and taking what was there is a permutation.
set-perm : (xs : List ℕ) (i a b : ℕ) → get_elem? xs i ≡ some a → Perm (b ∷ xs) (a ∷ set xs i b)
set-perm [] i a b h = absurd (ground arith)
set-perm (x ∷ xs) zero a b h = let same : x ≡ a = ground arith in rw same (Perm.swap a b xs)
set-perm (x ∷ xs) (suc i) a b h =
    Perm.trans (Perm.swap x b xs)
      (Perm.trans (Perm.cons x (set-perm xs i a b h)) (Perm.swap a x (set xs i b)))

modify-none : (xs : List ℕ) (i : ℕ) (f : ℕ → ℕ) → get_elem? xs i ≡ none → modify xs i f ≡ xs
modify-none [] i f h = refl
modify-none (x ∷ xs) zero f h = cc
modify-none (x ∷ xs) (suc i) f h = ap (λ l. x ∷ l) (modify-none xs i f h)

-- The entry `id` that was read can be taken for the lap of `count`.
abbrev pub is_takeable : ℕ → ℕ → Bool
is_takeable count id = subbuffer_id_is_noref overwrite id && subbuffer_id_compare_offset id count

-- What an update finds in the writer's table, and what it leaves there: with no entry it changes
-- nothing; an entry that cannot be taken, or that others have changed, stays as they have left it,
-- and the reader keeps its page; any other entry becomes the reader's, and its place in the table
-- gets the reader's identifier, unreferenced and with the lap's count.
pub data Exchange (idx count : ℕ) (interfere : ℕ → ℕ) (buf buf' : Buffer) : Type 0 where
  missing : get_elem? buf.buf_wsb idx ≡ none → buf' ≡ buf → Exchange idx count interfere buf buf'
  left :
      {id : ℕ}
      → get_elem? buf.buf_wsb idx ≡ some id
      → (is_takeable count id ≡ false) ⊎ (interfere id ≢ id)
      → buf'.buf_wsb ≡ modify buf.buf_wsb idx interfere
      → page_index buf'.buf_rsb ≡ page_index buf.buf_rsb
      → Exchange idx count interfere buf buf'
  swapped :
      {id : ℕ}
      → get_elem? buf.buf_wsb idx ≡ some id
      → is_takeable count id ≡ true
      → interfere id ≡ id
      → buf'.buf_wsb
        ≡ set
            (modify buf.buf_wsb idx interfere)
            idx
            (subbuffer_id_set_noref_offset overwrite buf.buf_rsb count)
      → buf'.buf_rsb ≡ id
      → Exchange idx count interfere buf buf'

exchange_reader-cases :
    (idx count id now : ℕ) (buf : Buffer)
    → let rsb = subbuffer_id_set_noref_offset overwrite buf.buf_rsb count in
      let buf' = updated buf (exchange_reader idx count id now buf) in
      ((is_takeable count id ≡ false) × (buf' ≡ buf))
      ⊎ (((now ≢ id) × (buf' ≡ record buf { buf_rsb = rsb }))
          ⊎ ((is_takeable count id ≡ true)
              × (now ≡ id)
              × (buf' ≡ record buf { buf_wsb = set buf.buf_wsb idx rsb; buf_rsb = id })))
unfolding exchange_reader
exchange_reader-cases idx count id now buf = ground arith

-- Among the pages of the buffer that the exchange meets, the exchange is a permutation.
exchange_reader-perm :
    (idx count id now : ℕ) (buf : Buffer)
    → get_elem? buf.buf_wsb idx ≡ some now
    → Perm (pages_in_use buf) (pages_in_use (updated buf (exchange_reader idx count id now buf)))
exchange_reader-perm idx count id now buf h =
    let rsb = subbuffer_id_set_noref_offset overwrite buf.buf_rsb count in
    let keeps : page_index rsb ≡ page_index buf.buf_rsb =
      set_noref_offset-index buf.buf_rsb count in
    elim (exchange_reader-cases idx count id now buf) [
      | inl (_, e) ↦ rw e (Perm.refl (pages_in_use buf))
      | inr (inl (_, e)) ↦ rw (e, keeps) (Perm.refl (pages_in_use buf))
      | inr (inr (_, same, e)) ↦
          rw (e, map-set page_index buf.buf_wsb idx rsb, keeps)
            (set-perm (map page_index buf.buf_wsb) idx (page_index id) (page_index buf.buf_rsb)
              (get_elem?-map page_index buf.buf_wsb idx id (h ∙ ap some same)))
    ]

exchange_reader-Exchange :
    (idx count id : ℕ) (interfere : ℕ → ℕ) (buf : Buffer)
    → get_elem? buf.buf_wsb idx ≡ some id
    → let b = met idx interfere buf in
      Exchange idx count interfere buf (updated b (exchange_reader idx count id (interfere id) b))
exchange_reader-Exchange idx count id interfere buf h =
    elim (exchange_reader-cases idx count id (interfere id) (met idx interfere buf)) [
      | inl (kept, e) ↦ rw e (left h (inl kept) refl refl)
      | inr (inl (changed, e)) ↦
          rw e (left h (inr changed) refl (set_noref_offset-index buf.buf_rsb count))
      | inr (inr (takeable, same, e)) ↦ rw e (swapped h takeable same refl refl)
    ]

update-eperm :
    (idx count : ℕ) (interfere : ℕ → ℕ) (buf : Buffer)
    → get_elem? buf.buf_wsb idx ≡ none
    → update_read_sb_index overwrite idx count interfere buf ≡ eperm
unfolding update_read_sb_index
update-eperm idx count interfere buf h = ground arith

update-null :
    (idx count : ℕ) (interfere : ℕ → ℕ) (buf : Buffer)
    → get_elem? buf.buf_wsb idx ≡ none
    → updated buf (update_read_sb_index overwrite idx count interfere buf) ≡ met idx interfere buf
update-null idx count interfere buf h =
    let same = modify-none buf.buf_wsb idx interfere h in
    ap (updated buf) (update-eperm idx count interfere buf h)
    ∙ ap (λ l. record buf { buf_wsb = l }) (sym same)

update-found :
    (idx count : ℕ) (interfere : ℕ → ℕ) (buf : Buffer) (id : ℕ)
    → get_elem? buf.buf_wsb idx ≡ some id
    → update_read_sb_index overwrite idx count interfere buf
      ≡ exchange_reader idx count id (interfere id) (met idx interfere buf)
unfolding update_read_sb_index
update-found idx count interfere buf id h = ground arith

updated-exchange_reader :
    (idx count id now : ℕ) (b buf : Buffer)
    → updated b (exchange_reader idx count id now buf)
      ≡ updated buf (exchange_reader idx count id now buf)
unfolding exchange_reader
updated-exchange_reader idx count id now b buf = ground arith

-- Let other threads make anything of the table's entry once it is read. An update of the reader's
-- sub-buffer in overwrite mode leaves the pages as the others have left them, up to a permutation
-- among the reader and the writer's table. An entry that is unreferenced and has the lap's count,
-- and that the others have left as it was read, becomes the reader's, and its place in the table
-- gets the reader's page; otherwise the table stays as the others have left it, and the reader keeps
-- its page.
pub update_read_sb_index-perm :
    (idx count : ℕ) (interfere : ℕ → ℕ) (buf : Buffer)
    → let buf' = updated buf (update_read_sb_index overwrite idx count interfere buf) in
      Perm (pages_in_use (met idx interfere buf)) (pages_in_use buf')
      × Exchange idx count interfere buf buf'
update_read_sb_index-perm idx count interfere buf =
    elim (Option-cases (get_elem? buf.buf_wsb idx)) [
      | inl e ↦ (
        rw (update-null idx count interfere buf e) (Perm.refl _),
        missing e (ap (updated buf) (update-eperm idx count interfere buf e)),
      )
      | inr (id, e) ↦
          let now : get_elem? (modify buf.buf_wsb idx interfere) idx ≡ some (interfere id) =
            get_elem?-modify_self buf.buf_wsb idx interfere ∙ ap (Option.map interfere) e in
          rw
            (
              update-found idx count interfere buf id e,
              updated-exchange_reader idx count id (interfere id) buf (met idx interfere buf),
            )
            (
              exchange_reader-perm idx count id (interfere id) (met idx interfere buf) now,
              exchange_reader-Exchange idx count id interfere buf e,
            )
    ]

-- The writer's changes of the flag and the offset leave every page where it is.
pub clear_noref-pages :
    (idx : ℕ) (buf : Buffer) → pages_in_use (clear_noref overwrite idx buf) ≡ pages_in_use buf
unfolding clear_noref
clear_noref-pages idx buf =
    ap (λ l. page_index buf.buf_rsb ∷ l)
      (map-modify_same page_index (subbuffer_id_clear_noref overwrite) clear_noref-index buf.buf_wsb
        idx)

pub set_noref_offset-pages :
    (idx offset : ℕ) (buf : Buffer)
    → pages_in_use (set_noref_offset overwrite idx offset buf) ≡ pages_in_use buf
unfolding set_noref_offset
set_noref_offset-pages idx offset buf =
    ap (λ l. page_index buf.buf_rsb ∷ l)
      (map-modify_same page_index (λ id. subbuffer_id_set_noref_offset overwrite id offset)
        (λ id. set_noref_offset-index id offset) buf.buf_wsb idx)
