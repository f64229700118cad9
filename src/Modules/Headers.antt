-- ===== src/Modules/Headers.antt =====
-- The copies of the headers, and the test of `smf_modules_flush_dirty` whether they have changed.
use spmfilter.Base.{
  Bool, true, false, not, ◌||◌, Option, none, some, List, [], ◌∷◌, ◌++◌, ◌==◌, if◌then◌else◌,
  length, Bytes, equal,
}
use spmfilter.System.{Header}

-- `_copy_header`: the name, and the values appended in order.
unfoldable pub copy_values : List (Option Bytes) → List (Option Bytes) → List (Option Bytes)
copy_values n [] = n
copy_values n (v ∷ vs) = copy_values (n ++ v ∷ []) vs

unfoldable pub copy_header : Header → Header
unfolding copy_values
copy_header o = record { name = o.name; values = copy_values [] o.values }

-- The loop at the start of `smf_modules_process` over `msg->headers`.
unfoldable pub copy_headers : List Header → List Header
copy_headers [] = []
copy_headers (h ∷ hs) = copy_header h ∷ copy_headers hs

-- Two values that are there and not the same.
unfoldable pub value_differs : Option Bytes → Option Bytes → Bool
value_differs (some a) (some b) = not (equal a b)
value_differs none b = false
value_differs (some a) none = false

-- The loop over the values of two headers with as many values.
unfoldable pub values_differ : List (Option Bytes) → List (Option Bytes) → Bool
values_differ [] init = false
values_differ (v ∷ vs) [] = false
values_differ (v ∷ vs) (i ∷ is) = value_differs v i || values_differ vs is

-- `dirty` for two headers of one name.
unfoldable pub header_dirty : Header → Header → Bool
unfolding values_differ value_differs
header_dirty h_msg h_init =
    if not (length h_msg.values == length h_init.values)
    then true
    else values_differ h_msg.values h_init.values

-- The inner loop: the first header of the initial list with the name.
unfoldable pub find_header : Bytes → List Header → Option Header
find_header name [] = none
find_header name (h ∷ hs) =
    let later = find_header name hs in if equal name h.name then some h else later

-- The outer loop; it stops at a header that is not in the initial list.
unfoldable pub changed : List Header → List Header → Bool → Bool
changed [] init dirty = dirty
changed (h ∷ hs) init dirty = elim (find_header h.name init) [
  | none ↦ true
  | some i ↦ changed hs init (if header_dirty h i then true else dirty)
]

unfoldable pub is_dirty : List Header → List Header → Bool
is_dirty msg init = if not (length msg == length init) then true else changed msg init false
