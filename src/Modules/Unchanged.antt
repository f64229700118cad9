-- ===== src/Modules/Unchanged.antt =====
-- Headers that no module has changed are not dirty.
use spmfilter.Base.{
  ◌≡◌, refl, sym, ap, ◌∙◌, inl, inr, Bool, true, false, not, ◌&&◌, ◌||◌, Option, none, some, List,
  [], ◌∷◌, ◌++◌, append-nil, append_assoc, arith, ◌==◌, Bool-cases, length, All, Bytes, equal,
  equal_refl, equal_comm, pos,
}
use spmfilter.Settings.{Settings}
use spmfilter.Session.{Session}
use spmfilter.System.{System, Header}
use spmfilter.Modules.Headers.{
  copy_values, copy_header, copy_headers, value_differs, values_differ, header_dirty, find_header,
  changed, is_dirty,
}
use spmfilter.Modules.Flush.{flush_dirty}

-- Every header is the first one of its name.
unfoldable pub has_name : Bytes → List Header → Bool
has_name name [] = false
has_name name (h ∷ hs) = equal name h.name || has_name name hs

unfoldable pub distinct_names : List Header → Bool
distinct_names [] = true
distinct_names (h ∷ hs) = not (has_name h.name hs) && distinct_names hs

copy_values-append : (n vs : List (Option Bytes)) → copy_values n vs ≡ n ++ vs
unfolding copy_values
copy_values-append n [] = sym (append-nil n)
copy_values-append n (v ∷ vs) = copy_values-append (n ++ v ∷ []) vs ∙ append_assoc n (v ∷ []) vs

copy_header_same : (h : Header) → copy_header h ≡ h
unfolding copy_header
copy_header_same h = ap (λ vs. record h { values = vs }) (copy_values-append [] h.values)

copy_headers_same : (hs : List Header) → copy_headers hs ≡ hs
unfolding copy_headers
copy_headers_same [] = refl
copy_headers_same (h ∷ hs) = rw (copy_header_same h, copy_headers_same hs) refl

value_differs_same : (v : Option Bytes) → value_differs v v ≡ false
unfolding value_differs
value_differs_same none = refl
value_differs_same (some a) = rw (equal_refl a) refl

values_differ_same : (vs : List (Option Bytes)) → values_differ vs vs ≡ false
unfolding values_differ
values_differ_same [] = refl
values_differ_same (v ∷ vs) = rw (value_differs_same v, values_differ_same vs) refl

header_dirty_same : (h : Header) → header_dirty h h ≡ false
unfolding header_dirty
header_dirty_same h =
    let t : (length h.values == length h.values) ≡ true = ground arith in
    rw (t, values_differ_same h.values) refl

Found : List Header → List Header → Type 0
Found init = All (λ h. find_header h.name init ≡ some h)

changed-Found : (ms init : List Header) → Found init ms → changed ms init false ≡ false
unfolding changed Found
changed-Found [] init f = refl
changed-Found (h ∷ hs) init f = rw (f.0, changed, header_dirty_same h) (changed-Found hs init f.1)

Found-cons :
    (h : Header) (hs init : List Header)
    → has_name h.name hs ≡ false
    → Found init hs
    → Found (h ∷ init) hs
unfolding Found has_name find_header
Found-cons h [] init n f = tt
Found-cons h (g ∷ gs) init n f = elim (Bool-cases (equal h.name g.name)) [
  | inl y ↦ absurd (ground arith)
  | inr z ↦
      let e : equal g.name h.name ≡ false = equal_comm g.name h.name ∙ z in
      let rest : has_name h.name gs ≡ false = ground arith in
      (rw (e, f.0) refl, Found-cons h gs init rest f.1)
]

distinct_names-Found : (hs : List Header) → distinct_names hs ≡ true → Found hs hs
unfolding distinct_names Found find_header
distinct_names-Found [] d = tt
distinct_names-Found (h ∷ hs) d =
    let fresh : has_name h.name hs ≡ false = ground arith in
    let rest : distinct_names hs ≡ true = ground arith in
    (rw (equal_refl h.name) refl, Found-cons h hs hs fresh (distinct_names-Found hs rest))

is_dirty_same : (hs : List Header) → distinct_names hs ≡ true → is_dirty hs hs ≡ false
unfolding is_dirty
is_dirty_same hs d =
    let t : (length hs == length hs) ≡ true = ground arith in
    rw t (changed-Found hs hs (distinct_names-Found hs d))

-- Where the headers of a message, all with names of their own, are those that were copied before
-- the modules ran, the flush succeeds and leaves every file as it is.
pub flush_dirty-copy_headers :
    {M W : Type 0} (sys : System M W) (st : Settings) (s : Session M) (m : M) (w : W)
    (before : List Header)
    → distinct_names before ≡ true
    → sys.headers w m ≡ before
    → flush_dirty sys st s m (copy_headers before) w ≡ (pos 0, w)
unfolding flush_dirty
flush_dirty-copy_headers sys st s m w before d e =
    let same : is_dirty (sys.headers w m) (copy_headers before) ≡ false =
      rw (e, copy_headers_same before) (is_dirty_same before d) in
    rw same refl
