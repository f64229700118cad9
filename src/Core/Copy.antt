-- ===== src/Core/Copy.antt =====
-- `smf_core_copy_to_fd` and `smf_core_copy_file` of src/smf_core.c, for what read and write return.
use spmfilter.Base.{
  ℕ, ◌+◌, ◌<◌, ◌≡◌, refl, sym, ap, ◌∙◌, true, false, append-nil, Option, none, some, List, [], ◌∷◌,
  ◌++◌, append_assoc, ltb, if◌then◌else◌, arith, length, take, take-length, Bytes, ℤ, pos,
  minus_one,
}
use spmfilter.Internal.Transfer.{
  Reads, disturbed, unreadable, reads, Wrote, interrupted, broken, wrote,
}

-- The inner loop for a chunk, with the bytes of it that are counted as written and all that is sent:
-- every call offers the whole chunk. The calls that are left, and none of all for -1; none while the
-- loop waits for another call.
unfoldable pub copy_chunk : List Wrote → Bytes → ℕ → Bytes → Option (Option (List Wrote) × Bytes)
copy_chunk [] chunk n sent = if ltb n (length chunk) then none else some (some [], sent)
copy_chunk (interrupted ∷ calls) chunk n sent =
    if ltb n (length chunk) then some (none, sent) else some (some (interrupted ∷ calls), sent)
copy_chunk (broken ∷ calls) chunk n sent =
    if ltb n (length chunk) then some (none, sent) else some (some (broken ∷ calls), sent)
copy_chunk (wrote k ∷ calls) chunk n sent =
    let more = copy_chunk calls chunk (n + k) (sent ++ take k chunk) in
    if ltb n (length chunk) then more else some (some (wrote k ∷ calls), sent)

abbrev pub after_chunk :
    Option (Option (List Wrote) × Bytes)
    → (List Wrote → Bytes → Option (ℤ × Bytes))
    → Option (ℤ × Bytes)
after_chunk none next = none
after_chunk (some (none, sent)) next = some (minus_one, sent)
after_chunk (some (some calls, sent)) next = next calls sent

-- The outer loop: the value that is returned and all that is sent. EINTR is an error like the others.
unfoldable pub copy_loop : List Reads → List Wrote → Bytes → Option (ℤ × Bytes)
copy_loop [] calls sent = none
copy_loop (disturbed ∷ rest) calls sent = some (minus_one, sent)
copy_loop (unreadable ∷ rest) calls sent = some (minus_one, sent)
copy_loop (reads [] ∷ rest) calls sent = some (pos (length sent), sent)
copy_loop (reads (c ∷ cs) ∷ rest) calls sent =
    after_chunk (copy_chunk calls (c ∷ cs) 0 sent) (copy_loop rest)

-- For a source that can be opened or not.
unfoldable pub copy_to_fd : Option (List Reads) → List Wrote → Option (ℤ × Bytes)
copy_to_fd none calls = some (minus_one, [])
copy_to_fd (some source) calls = copy_loop source calls []

-- A destination that cannot be opened gives 0, as an empty file does.
unfoldable pub copy_file : Option (List Wrote) → Option (List Reads) → Option (ℤ × Bytes)
copy_file none source = some (pos 0, [])
copy_file (some calls) source = copy_to_fd source calls

-- Each read gives a part of the file that is not empty.
abbrev pub parts : List (ℕ × Bytes) → Bytes
parts [] = []
parts ((c, cs) ∷ rest) = (c ∷ cs) ++ parts rest

abbrev pub reads_of : List (ℕ × Bytes) → List Reads
reads_of [] = reads [] ∷ []
reads_of ((c, cs) ∷ rest) = reads (c ∷ cs) ∷ reads_of rest

abbrev pub whole_writes : List (ℕ × Bytes) → List Wrote
whole_writes [] = []
whole_writes ((c, cs) ∷ rest) = wrote (length (c ∷ cs)) ∷ whole_writes rest

done_chunk :
    (calls : List Wrote) (chunk : Bytes) (n : ℕ) (sent : Bytes)
    → ltb n (length chunk) ≡ false
    → copy_chunk calls chunk n sent ≡ some (some calls, sent)
unfolding copy_chunk
done_chunk [] chunk n sent h = rw h refl
done_chunk (interrupted ∷ calls) chunk n sent h = rw h refl
done_chunk (broken ∷ calls) chunk n sent h = rw h refl
done_chunk (wrote k ∷ calls) chunk n sent h = rw h refl

whole_chunk :
    (calls : List Wrote) (c : ℕ) (cs sent : Bytes)
    → copy_chunk (wrote (length (c ∷ cs)) ∷ calls) (c ∷ cs) 0 sent
      ≡ some (some calls, sent ++ (c ∷ cs))
unfolding copy_chunk
whole_chunk calls c cs sent =
    let starts : ltb 0 (length (c ∷ cs)) ≡ true = ground arith in
    rw (starts, copy_chunk)
      (done_chunk calls (c ∷ cs) (0 + length (c ∷ cs)) (sent ++ take (length (c ∷ cs)) (c ∷ cs))
          (ground arith)
        ∙ ap (λ t. some (some calls, sent ++ t)) (take-length (c ∷ cs)))

copy_loop-whole :
    (file : List (ℕ × Bytes)) (sent : Bytes)
    → copy_loop (reads_of file) (whole_writes file) sent
      ≡ some (pos (length (sent ++ parts file)), sent ++ parts file)
unfolding copy_loop
copy_loop-whole [] sent = ap (λ t. some (pos (length t), t)) (sym (append-nil sent))
copy_loop-whole ((c, cs) ∷ rest) sent = rw (whole_chunk (whole_writes rest) c cs sent) (
    copy_loop-whole rest (sent ++ (c ∷ cs))
    ∙ ap (λ t. some (pos (length t), t)) (append_assoc sent (c ∷ cs) (parts rest)))

-- Where the source can be opened, each read gives a part of it and each write takes what it is offered,
-- the destination has the bytes of the source and the value that is returned is their number.
pub copy_to_fd_whole :
    (file : List (ℕ × Bytes))
    → copy_to_fd (some (reads_of file)) (whole_writes file)
      ≡ some (pos (length (parts file)), parts file)
unfolding copy_to_fd
copy_to_fd_whole file = copy_loop-whole file []

-- After a write that has taken only `k` bytes of the only part of the source, these are written again
-- with the rest, and counted again.
pub copy_to_fd_short :
    (c : ℕ) (cs : Bytes) (k : ℕ)
    → 0 < k
    → k < length (c ∷ cs)
    → copy_to_fd (some (reads_of ((c, cs) ∷ []))) (wrote k ∷ wrote (length (c ∷ cs)) ∷ [])
      ≡ some (pos (length (take k (c ∷ cs) ++ (c ∷ cs))), take k (c ∷ cs) ++ (c ∷ cs))
unfolding copy_to_fd copy_loop copy_chunk
copy_to_fd_short c cs k h lt =
    let starts : ltb 0 (length (c ∷ cs)) ≡ true = ground arith in
    let goes_on : ltb (0 + k) (length (c ∷ cs)) ≡ true = ground arith in
    let ends : ltb (0 + k + length (c ∷ cs)) (length (c ∷ cs)) ≡ false = ground arith in
    rw (starts, goes_on, take-length, ends) refl
