-- ===== src/Lookup/Db4.antt =====
-- src/smf_lookup_db4.c, for what Berkeley DB does: a lookup and an update in a hash file.
pub mod Stored
use spmfilter.Base.{
  c_text, ℕ, Bool, Option, none, some, [], ◌∷◌, ◌++◌, ◌==◌, if◌then◌else◌, Bytes, ℤ, pos, minus_one,
}

-- The library. `D` is a handle and `W` the state with its files; true stands for 0.
pub record Db (D W : Type 0) : Type 0 where
  pub create : W → Option D × W
  pub set_pagesize : W → D → ℕ → Bool × W
  pub set_cachesize : W → D → ℕ → Bool × W
  -- with DB_RDONLY
  pub open_read : W → D → Bytes → Bool × W
  -- with DB_CREATE
  pub open_write : W → D → Bytes → Bool × W
  -- the bytes of a value; none if the key is not found
  pub get : W → D → Bytes → Option Bytes × W
  pub put : W → D → Bytes → Bytes → Bool × W
  pub close : W → D → W

-- The bytes that the library is given for a C string: the terminator belongs to them.
abbrev pub terminated_text : Bytes → Bytes
terminated_text s = s ++ 0 ∷ []

abbrev pub text_of : Option Bytes → Option Bytes
text_of none = none
text_of (some bytes) = some (c_text bytes)

module _ {D W : Type 0} (lib : Db D W) where
  -- A handle on the file for reading. That a size is not taken is only logged, and a handle that is not
  -- opened is not closed.
  unfoldable pub db4_open : Bytes → W → Option D × W
  db4_open database w =
      let (handle, w1) = lib.create w in
      elim handle [
        | none ↦ (none, w1)
        | some d ↦
            let w2 = (lib.set_pagesize w1 d 1024).1 in
            let w3 = (lib.set_cachesize w2 d 32768).1 in
            let (opened, w4) = lib.open_read w3 d database in (if opened then some d else none, w4)
      ]

  unfoldable pub db4_query : Bytes → Bytes → W → Option Bytes × W
  db4_query database key w =
      let (handle, w1) = db4_open database w in
      elim handle [
        | none ↦ (none, w1)
        | some d ↦
            let (value, w2) = lib.get w1 d (terminated_text key) in (text_of value, lib.close w2 d)
      ]

  -- The value is written through a handle that is open.
  unfoldable pub db4_put : D → Bytes → Bytes → W → ℤ × W
  db4_put d key value w =
      let (written, w1) = lib.put w d (terminated_text key) (terminated_text value) in
      (if written then pos 0 else minus_one, lib.close w1 d)

  -- Here the sizes have to be taken.
  unfoldable pub db4_update : Bytes → Bytes → Bytes → W → ℤ × W
  db4_update database key value w =
      let (handle, w1) = lib.create w in
      elim handle [
        | none ↦ (minus_one, w1)
        | some d ↦
            let (paged, w2) = lib.set_pagesize w1 d 1024 in
            let (cached, w3) = lib.set_cachesize w2 d 32768 in
            let (opened, w4) = lib.open_write w3 d database in
            let done = db4_put d key value w4 in
            if paged
            then (if cached then (if opened then done else (minus_one, w4)) else (minus_one, w3))
            else (minus_one, w2)
      ]
