-- ===== src/Core/Expand.antt =====
-- `smf_core_expand_string` of src/smf_core.c, which edits its copy of the format in place: the
-- buffer is rewritten at the offset `offs`, and the loop goes on behind what it has inserted.
pub mod Meaning
use spmfilter.Base.{
  ltb, ℕ, zero, suc, ◌+◌, true, false, List, [], ◌∷◌, ◌++◌, none, some, ◌==◌, if◌then◌else◌, length,
  Bytes, get_elem?, get_or, take, drop, ℤ, minus_one, minus_two,
}
use spmfilter.Core.Split.{strsplit}

-- The return value: the number of replacements with `*buf`, or a negative code. Or the call reads
-- behind its buffer: for an insert of less than the two bytes of the option, `realloc` makes the
-- buffer smaller before `memmove` reads what stood at its end.
pub data Expanded : Type 0 where
  expanded : ℕ → Bytes → Expanded
  failed : ℤ → Expanded
  overread : Expanded

-- The switch on `out[offs + 1]`: the text to insert, or the error to return.
pub data Choice : Type 0 where
  insert : Bytes → Choice
  refuse : ℤ → Choice

unfoldable pub choose : Bytes → List Bytes → ℕ → Choice
choose addr parts o =
    if o == b's'
    then insert addr
    else if o == b'u'
    then insert (get_or parts 0 [])
    else if o == b'd'
    then (if ltb (length parts) 2 then refuse minus_one else insert (get_or parts 1 []))
    else refuse minus_two

-- `while(out[offs] != '\0')`, with fuel
unfoldable pub expand_loop : ℕ → Bytes → List Bytes → Bytes → ℕ → ℕ → Expanded
expand_loop zero addr parts out offs rep = expanded rep out
expand_loop (suc f) addr parts out offs rep = elim (get_elem? out offs) [
  | none ↦ expanded rep out
  | some c ↦ elim (c == b'%') [
    | false ↦ expand_loop f addr parts out (offs + 1) rep
    | true ↦ elim (choose addr parts (get_or out (offs + 1) 0)) [
      | refuse e ↦ failed e
      | insert t ↦ elim (ltb (length t) 2) [
        | true ↦ overread
        | false ↦
            expand_loop f addr parts (take offs out ++ (t ++ drop (offs + 2) out)) (offs + length t)
              (rep + 1)
      ]
    ]
  ]
]

unfoldable pub expand_string : Bytes → Bytes → Expanded
unfolding expand_loop choose strsplit
expand_string format addr =
    expand_loop (length format + 1) addr (strsplit addr (b'@' ∷ [])) format 0 0
