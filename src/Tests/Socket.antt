-- ===== src/Tests/Socket.antt =====
-- An example for lines from a socket.
use spmfilter.Base.{◌+◌, ◌<◌, ◌≡◌, refl, false, [], ◌∷◌, ◌++◌, arith, length, All, codes, contains}
use spmfilter.Internal.Transfer.{interrupted}
use spmfilter.Internal.Readline.{got, interrupted, Source, readline}
use spmfilter.Internal.Chunks.{
  IsSteady, stream, flow, Lines, readline-Lines, Gives, last_byte, readline-Gives,
}

-- A line in three pieces.
abbrev pieces : Source
unfolding codes
pieces = record {
  buffer = codes "no";
  reads = got (codes "o") ∷ interrupted ∷ got (codes "p\nquit\n") ∷ [];
}

pieces-IsSteady : All IsSteady pieces.reads
unfolding IsSteady codes
pieces-IsSteady = (tt, (tt, (tt, tt)))

one_line : contains b'\n' (codes "noop") ≡ false
unfolding contains codes
one_line = refl

noop_first : stream pieces ≡ codes "noop" ++ (b'\n' ∷ codes "quit\n")
unfolding stream flow codes
noop_first = refl

four_bytes : length (codes "noop") + 1 < 1024
unfolding codes
four_bytes = omega arith

readline-Lines_example :
    Lines
      (record { text = codes "noop" ++ b'\n' ∷ []; count = length (codes "noop") + 1 })
      (codes "quit\n")
      (readline 1024 pieces)
readline-Lines_example =
    readline-Lines 1024 (codes "noop") (codes "quit\n") pieces one_line four_bytes pieces-IsSteady
      noop_first

-- A line that is cut off.
abbrev cut : Source
unfolding codes
cut = record { buffer = codes "qu"; reads = got (codes "it") ∷ [] }

cut-IsSteady : All IsSteady cut.reads
unfolding IsSteady codes
cut-IsSteady = (tt, tt)

no_newline : contains b'\n' (codes "quit") ≡ false
unfolding contains codes
no_newline = refl

cut_input : stream cut ≡ codes "quit"
unfolding stream flow codes
cut_input = refl

quit_fits : length (codes "quit") + 1 < 1024
unfolding codes
quit_fits = omega arith

readline-Gives_example :
    Gives
      (record {
        text = codes "quit" ++ last_byte b'q' (codes "uit") ∷ [];
        count = length (codes "quit") + 1;
      })
      (readline 1024 cut)
unfolding codes
readline-Gives_example =
    readline-Gives 1024 b'q' (codes "uit") cut no_newline quit_fits cut-IsSteady cut_input
