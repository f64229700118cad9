-- ===== src/Internal/Linebreak.antt =====
-- `smf_internal_determine_linebreak` of src/smf_internal.c.
use spmfilter.Base.{[], ◌∷◌, Option, none, some, if◌then◌else◌, Bytes, strstr_found}

abbrev pub crlf : Bytes
crlf = b'\r' ∷ b'\n' ∷ []

abbrev pub lf : Bytes
lf = b'\n' ∷ []

abbrev pub cr : Bytes
cr = b'\r' ∷ []

unfoldable pub determine_linebreak : Bytes → Option Bytes
unfolding strstr_found
determine_linebreak s =
    if strstr_found s crlf
    then some crlf
    else if strstr_found s lf
    then some lf
    else if strstr_found s cr
    then some cr
    else none
