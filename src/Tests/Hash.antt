-- ===== src/Tests/Hash.antt =====
-- A hash file in memory, with an update and a lookup.
use spmfilter.Base.{
  ℕ, ◌≡◌, refl, Bool, true, false, arith, Option, none, some, List, [], ◌∷◌, if◌then◌else◌, Bytes,
  codes, equal, equal_refl, IsText, pos,
}
use spmfilter.Lookup.Db4.{Db, terminated_text, text_of, db4_open, db4_put, db4_update, db4_query}
use spmfilter.Lookup.Db4.Stored.{IsStore, db4_query-db4_update}

record Row : Type 0 where
  path : Bytes
  key : Bytes
  value : Bytes

-- The rows, the newest first, and the file that is open.
record Memory : Type 0 where
  rows : List Row
  opened : Option Bytes

row_at : List Row → Bytes → Bytes → Option Bytes
row_at [] path key = none
row_at (e ∷ es) path key =
    let later = row_at es path key in
    if equal e.path path then (if equal e.key key then some e.value else later) else later

abbrev put_row : Memory → Bytes → Bytes → Bool × Memory
put_row w key value = elim w.opened [
  | none ↦ (false, w)
  | some path ↦
      (true, record w { rows = record { path = path; key = key; value = value } ∷ w.rows })
]

abbrev get_row : Memory → Bytes → Option Bytes
get_row w key = elim w.opened [ none ↦ none | some path ↦ row_at w.rows path key ]

abbrev memory : Db ℕ Memory
memory = record {
  create = λ w. (some 1, w);
  set_pagesize = λ w d n. (true, w);
  set_cachesize = λ w d n. (true, w);
  open_read = λ w d path. (true, record w { opened = some path });
  open_write = λ w d path. (true, record w { opened = some path });
  get = λ w d key. (get_row w key, w);
  put = λ w d key value. put_row w key value;
  close = λ w d. record w { opened = none };
}

memory-IsStore : IsStore memory
unfolding row_at
memory-IsStore = record {
  found = λ w path key. row_at w.rows path key;
  file = λ w d. w.opened;
  create_keeps = λ w. refl;
  pagesize_keeps = λ w d n. refl;
  cachesize_keeps = λ w d n. refl;
  read_keeps = λ w d path. refl;
  write_keeps = λ w d path. refl;
  close_keeps = λ w d. refl;
  read_opens = λ w d path h. refl;
  write_opens = λ w d path h. refl;
  get_finds = λ w d path key e. rw e refl;
  put_stores = λ w d path key value e h other. rw (e, row_at, equal_refl path) refl;
}

abbrev empty : Memory
empty = record { rows = []; opened = none }

fine-IsText : IsText (codes "ok")
unfolding codes
fine-IsText = (omega arith, (omega arith, tt))

stored : (db4_update memory (codes "/db") (codes "a@b") (codes "ok") empty).0 ≡ pos 0
unfolding db4_update db4_put
stored = refl

opens :
    (db4_open memory
      (codes "/db")
      (db4_update memory (codes "/db") (codes "a@b") (codes "ok") empty).1).0
    ≡ some 1
unfolding db4_open
opens = refl

db4_query-db4_update_example :
    (db4_query memory
      (codes "/db")
      (codes "a@b")
      (db4_update memory (codes "/db") (codes "a@b") (codes "ok") empty).1).0
    ≡ (if equal (codes "a@b") (codes "a@b")
        then some (codes "ok")
        else text_of (memory-IsStore.found empty (codes "/db") (terminated_text (codes "a@b"))))
db4_query-db4_update_example =
    db4_query-db4_update memory memory-IsStore (codes "/db") (codes "a@b") (codes "ok")
      (codes "a@b") empty 1 fine-IsText stored opens
