-- ===== src/Lookup/Db4/Stored.antt =====
-- What an update stores is what a lookup finds.
use mathlib.Core.Path.{subst}
use mathlib.Core.List.{append_cancel_right}
use mathlib.Core.Option.{some_inj, none-ne-some}
use spmfilter.Base.{
  c_text, ℕ, ◌≡◌, refl, sym, ap, ◌∙◌, inl, inr, true, false, Bool-cases, Option-cases, Option, some,
  [], ◌∷◌, ◌==◌, if◌then◌else◌, arith, Bytes, IsText, equal, equal_iff, pos, minus_one,
}
use spmfilter.Lookup.Db4.{Db, terminated_text, text_of, db4_open, db4_query, db4_put, db4_update}

-- What Berkeley DB documents: `found` is what a file has for a key, and `file` the file that a handle is
-- open on.
pub record IsStore {D W : Type 0} (lib : Db D W) : Type 0 where
  pub found : W → Bytes → Bytes → Option Bytes
  pub file : W → D → Option Bytes
  pub create_keeps : (w : W) → found (lib.create w).1 ≡ found w
  pub pagesize_keeps : (w : W) (d : D) (n : ℕ) → found (lib.set_pagesize w d n).1 ≡ found w
  pub cachesize_keeps : (w : W) (d : D) (n : ℕ) → found (lib.set_cachesize w d n).1 ≡ found w
  pub read_keeps : (w : W) (d : D) (path : Bytes) → found (lib.open_read w d path).1 ≡ found w
  pub write_keeps : (w : W) (d : D) (path : Bytes) → found (lib.open_write w d path).1 ≡ found w
  pub close_keeps : (w : W) (d : D) → found (lib.close w d) ≡ found w
  pub read_opens :
      (w : W) (d : D) (path : Bytes)
      → (lib.open_read w d path).0 ≡ true
      → file (lib.open_read w d path).1 d ≡ some path
  pub write_opens :
      (w : W) (d : D) (path : Bytes)
      → (lib.open_write w d path).0 ≡ true
      → file (lib.open_write w d path).1 d ≡ some path
  pub get_finds :
      (w : W) (d : D) (path key : Bytes)
      → file w d ≡ some path
      → (lib.get w d key).0 ≡ found w path key
  pub put_stores :
      (w : W) (d : D) (path key value : Bytes)
      → file w d ≡ some path
      → (lib.put w d key value).0 ≡ true
      → (other : Bytes)
      → found (lib.put w d key value).1 path other
        ≡ (if equal key other then some value else found w path other)

c_text-terminated_text : (s : Bytes) → IsText s → c_text (terminated_text s) ≡ s
unfolding c_text
c_text-terminated_text [] h = refl
c_text-terminated_text (c ∷ cs) h =
    let nonzero : (c == 0) ≡ false = ground (arith, h.0) in
    rw (nonzero, c_text-terminated_text cs h.1) refl

equal-terminated_text : (a b : Bytes) → equal (terminated_text a) (terminated_text b) ≡ equal a b
equal-terminated_text a b = elim (Bool-cases (equal a b)) [
  | inl y ↦
      (equal_iff (terminated_text a) (terminated_text b)).1
        (ap terminated_text ((equal_iff a b).0 y))
      ∙ sym y
  | inr n ↦ elim (Bool-cases (equal (terminated_text a) (terminated_text b))) [
    | inr m ↦ m ∙ sym n
    | inl z ↦
        z
        ∙ sym (
            (equal_iff a b).1 (
              append_cancel_right a b (0 ∷ [])
                ((equal_iff (terminated_text a) (terminated_text b)).0 z)))
  ]
]

failed : minus_one ≡ pos 0 → ⊥
failed h = absurd (cc)

module _ {D W : Type 0} (lib : Db D W) (store : IsStore lib) where
  -- A handle that is opened for reading is open on the file, and the files are as before.
  db4_open-opens :
      (path : Bytes) (w : W) (d : D)
      → (db4_open lib path w).0 ≡ some d
      → (store.file (db4_open lib path w).1 d ≡ some path)
        × (store.found (db4_open lib path w).1 ≡ store.found w)
  unfolding db4_open
  db4_open-opens path w d e = elim (Option-cases (lib.create w).0) [
    | inl n ↦ absurd (none-ne-some d (rw (n, db4_open) at e))
    | inr (d0, h) ↦
        let w1 = (lib.create w).1 in
        let w2 = (lib.set_pagesize w1 d0 1024).1 in
        let w3 = (lib.set_cachesize w2 d0 32768).1 in
        let w4 = (lib.open_read w3 d0 path).1 in
        let kept : store.found w4 ≡ store.found w =
          store.read_keeps w3 d0 path
          ∙ (store.cachesize_keeps w2 d0 32768
              ∙ (store.pagesize_keeps w1 d0 1024 ∙ store.create_keeps w)) in
        elim (Bool-cases (lib.open_read w3 d0 path).0) [
          | inl y ↦
              let same = some_inj.0 (rw (h, y, db4_open) at e) in
              rw (h, db4_open)
                (
                  subst (λ x. store.file w4 x ≡ some path) same (store.read_opens w3 d0 path y),
                  kept,
                )
          | inr m ↦ absurd (none-ne-some d (rw (h, m, db4_open) at e))
        ]
  ]

  db4_query_lem :
      (path key : Bytes) (w : W) (d : D)
      → (db4_open lib path w).0 ≡ some d
      → (db4_query lib path key w).0 ≡ text_of (store.found w path (terminated_text key))
  unfolding db4_query
  db4_query_lem path key w d e =
      let (opened, kept) = db4_open-opens path w d e in
      rw (e, db4_query)
        (ap text_of (
          store.get_finds _ d path (terminated_text key) opened
          ∙ ap (λ f. f path (terminated_text key)) kept))

  -- Where the value is written, the file has it and the other keys as before.
  db4_put-stores :
      (path key value : Bytes) (w : W) (d : D)
      → store.file w d ≡ some path
      → (db4_put lib d key value w).0 ≡ pos 0
      → (other : Bytes)
      → store.found (db4_put lib d key value w).1 path other ≡ (
          if equal (terminated_text key) other
          then some (terminated_text value)
          else store.found w path other)
  unfolding db4_put
  db4_put-stores path key value w d opened e other =
      elim (Bool-cases (lib.put w d (terminated_text key) (terminated_text value)).0) [
        | inl y ↦
            ap (λ f. f path other) (store.close_keeps _ d)
            ∙ store.put_stores w d path (terminated_text key) (terminated_text value) opened y other
        | inr m ↦ absurd (failed (rw m at e))
      ]

  db4_update-stores :
      (path key value : Bytes) (w : W)
      → (db4_update lib path key value w).0 ≡ pos 0
      → (other : Bytes)
      → store.found (db4_update lib path key value w).1 path other ≡ (
          if equal (terminated_text key) other
          then some (terminated_text value)
          else store.found w path other)
  unfolding db4_update
  db4_update-stores path key value w e other = elim (Option-cases (lib.create w).0) [
    | inl n ↦ absurd (failed (rw (n, db4_update) at e))
    | inr (d, h) ↦
        let w1 = (lib.create w).1 in
        let w2 = (lib.set_pagesize w1 d 1024).1 in
        let w3 = (lib.set_cachesize w2 d 32768).1 in
        let w4 = (lib.open_write w3 d path).1 in
        let kept : store.found w4 ≡ store.found w =
          store.write_keeps w3 d path
          ∙ (store.cachesize_keeps w2 d 32768
              ∙ (store.pagesize_keeps w1 d 1024 ∙ store.create_keeps w)) in
        elim (Bool-cases (lib.set_pagesize w1 d 1024).0) [
          | inr m ↦ absurd (failed (rw (h, m, db4_update) at e))
          | inl paged ↦ elim (Bool-cases (lib.set_cachesize w2 d 32768).0) [
            | inr m ↦ absurd (failed (rw (h, paged, m, db4_update) at e))
            | inl cached ↦ elim (Bool-cases (lib.open_write w3 d path).0) [
              | inr m ↦ absurd (failed (rw (h, paged, cached, m, db4_update) at e))
              | inl opened ↦
                  rw (h, paged, cached, opened, db4_update)
                    (subst
                      (λ f. store.found (db4_put lib d key value w4).1 path other ≡ (
                        if equal (terminated_text key) other
                        then some (terminated_text value)
                        else f path other))
                      kept
                      (db4_put-stores path key value w4 d (store.write_opens w3 d path opened)
                        (rw (h, paged, cached, opened, db4_update) at e) other))
            ]
          ]
        ]
  ]

  -- After an update that has returned 0, a lookup in the same file that can open it gives the value for
  -- the key of the update, and for every other key what the file had; where Berkeley DB keeps its
  -- documentation and the value is a C string.
  pub db4_query-db4_update :
      (path key value other : Bytes) (w : W) (d : D)
      → IsText value
      → (db4_update lib path key value w).0 ≡ pos 0
      → (db4_open lib path (db4_update lib path key value w).1).0 ≡ some d
      → (db4_query lib path other (db4_update lib path key value w).1).0 ≡ (
          if equal key other
          then some value
          else text_of (store.found w path (terminated_text other)))
  db4_query-db4_update path key value other w d text e o =
      let w1 = (db4_update lib path key value w).1 in
      let asked = db4_query_lem path other w1 d o in
      let stored = db4_update-stores path key value w e (terminated_text other) in
      elim (Bool-cases (equal key other)) [
        | inl y ↦
            let ended = equal-terminated_text key other ∙ y in
            rw y (
              asked
              ∙ (ap text_of (rw ended at stored) ∙ ap some (c_text-terminated_text value text)))
        | inr n ↦
            let apart = equal-terminated_text key other ∙ n in
            rw n (asked ∙ ap text_of (rw apart at stored))
      ]
