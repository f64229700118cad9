-- ===== src/Internal/Readline.antt =====
-- `smf_internal_readline` and `smf_internal_readcbuf` of src/smf_internal.c: lines from a socket,
-- through a buffer. What the calls of `read` return is an argument; behind the last one there is
-- the end of the input.
use spmfilter.Base.{ℕ, zero, suc, ◌+◌, ◌-◌, List, [], ◌∷◌, ◌++◌, ◌==◌, if◌then◌else◌, Bytes}

-- One call of `read`: its bytes (none at the end of the input), EINTR, or another error.
pub data Read : Type 0 where
  got : Bytes → Read
  interrupted : Read
  broken : Read

-- The bytes from `rl->current` on, and the calls of `read` to come.
pub record Source : Type 0 where
  pub buffer : Bytes
  pub reads : List Read

-- What `smf_internal_readcbuf` returns: 1 with a byte, 0 or -1.
pub data Char : Type 0 where
  byte : ℕ → Source → Char
  no_more : Source → Char
  char_error : Source → Char

-- `while(rl->count < 1)`, for an empty buffer.
unfoldable pub fill : List Read → Char
fill [] = no_more (record { buffer = []; reads = [] })
fill (interrupted ∷ rs) = fill rs
fill (broken ∷ rs) = char_error (record { buffer = []; reads = rs })
fill (got [] ∷ rs) = no_more (record { buffer = []; reads = rs })
fill (got (c ∷ cs) ∷ rs) = byte c (record { buffer = cs; reads = rs })

unfoldable pub read_from : Bytes → List Read → Char
read_from [] rs = fill rs
read_from (c ∷ cs) rs = byte c (record { buffer = cs; reads = rs })

unfoldable pub readcbuf : Source → Char
unfolding read_from
readcbuf s = read_from s.buffer s.reads

-- What a call returns: the line in its buffer with the return value, 0 or -1.
pub record Line : Type 0 where
  pub text : Bytes
  pub count : ℕ

pub data Got : Type 0 where
  line : Line → Source → Got
  ended : Source → Got
  failed : Source → Got

-- The loop from `n` on, with `k` turns to go; `last` is what `c` holds, and `text` what has been
-- stored. Where the input ends in a line, the last byte is stored a second time.
unfoldable pub read_loop : ℕ → ℕ → ℕ → Bytes → Source → Got
read_loop zero n last text s = line (record { text = text; count = n }) s
read_loop (suc k) n last text s = elim (readcbuf s) [
  | char_error s' ↦ failed s'
  | no_more s' ↦
      if n == 1 then ended s' else line (record { text = text ++ last ∷ []; count = n }) s'
  | byte c s' ↦
      let rest = read_loop k (n + 1) c (text ++ c ∷ []) s' in
      if c == b'\n' then line (record { text = text ++ c ∷ []; count = n }) s' else rest
]

-- `smf_internal_readline(fd, buf, nbyte, &help)`
unfoldable pub readline : ℕ → Source → Got
unfolding read_loop
readline nbyte s = read_loop (nbyte - 1) 1 0 [] s
