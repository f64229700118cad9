-- ===== src/EmailAddress.antt =====
-- src/smf_email_address.c, where it does more than call libcmime: `smf_email_address_is_empty` and
-- `smf_email_address_get_simplified`.
use spmfilter.Base.{
  ◌≡◌, refl, ◌↔◌, inl, inr, Bool, true, false, not, Option, none, some, [], ◌∷◌, ◌==◌,
  if◌then◌else◌, All, Bool-cases, Bytes, IsText, is_space, strchr,
}
use spmfilter.Core.Strip.{strstrip, strstrip_spaces}

-- The loop up to a closing bracket or the end.
unfoldable pub blank_loop : Bytes → Bool
blank_loop [] = true
blank_loop (c ∷ cs) =
    let rest = blank_loop cs in if c == b'>' then true else if not (is_space c) then false else rest

abbrev pub behind : Bytes → Option Bytes → Bytes
behind email none = email
behind email (some []) = []
behind email (some (c ∷ cs)) = cs

unfoldable pub is_empty : Bytes → Bool
is_empty email = blank_loop (behind email (strchr email b'<'))

-- `if ((end = strchr(email, '>')) != NULL) *end = '\0';`
unfoldable pub cut : Bytes → Bytes
cut [] = []
cut (c ∷ cs) = let rest = c ∷ cut cs in if c == b'>' then [] else rest

-- What the simplified address is set to, for the address that libcmime parses.
unfoldable pub simplify : Bytes → Bytes
simplify [] = strstrip []
simplify (c ∷ cs) = let plain = strstrip (c ∷ cs) in if c == b'<' then strstrip (cut cs) else plain

-- `parse` gives the address of what `smf_email_address_parse_string` makes of a text.
unfoldable pub get_simplified : (Bytes → Bytes) → Bytes → Bytes
get_simplified parse email = simplify (parse email)

abbrev Spaces : Bytes → Type 0
Spaces t = All (λ c. is_space c ≡ true) t

cut-IsText : (s : Bytes) → IsText s → IsText (cut s)
unfolding cut
cut-IsText [] h = tt
cut-IsText (c ∷ cs) h = elim (Bool-cases (c == b'>')) [
  | inl y ↦ rw y tt
  | inr n ↦ rw n (h.0, cut-IsText cs h.1)
]

blank_loop-cut : (s : Bytes) → (blank_loop s ≡ true) ↔ Spaces (cut s)
unfolding blank_loop cut
blank_loop-cut [] = (λ e. tt, λ a. refl)
blank_loop-cut (c ∷ cs) = elim (Bool-cases (c == b'>')) [
  | inl y ↦ rw y (λ e. tt, λ a. refl)
  | inr n ↦ elim (Bool-cases (is_space c)) [
    | inl y ↦ rw (n, y) (λ e. (refl, (blank_loop-cut cs).0 e), λ a. (blank_loop-cut cs).1 a.1)
    | inr m ↦ rw (n, m) (λ e. absurd (cc), λ a. absurd (cc))
  ]
]

simplify_angle : (s : Bytes) → IsText s → (is_empty (b'<' ∷ s) ≡ true) ↔ (simplify (b'<' ∷ s) ≡ [])
unfolding is_empty simplify strchr
simplify_angle s h =
    let (there, back) = blank_loop-cut s in
    let (down, up) = strstrip_spaces (cut s) (cut-IsText s h) in
    (λ e. up (there e), λ e. back (down e))

-- Where the address that libcmime parses out of `email` begins with an angle bracket, that address
-- is called empty exactly if the simplified form of `email` is the empty text.
pub is_empty-simplify :
    (parse : Bytes → Bytes) (email s : Bytes)
    → parse email ≡ b'<' ∷ s
    → IsText s
    → (is_empty (parse email) ≡ true) ↔ (get_simplified parse email ≡ [])
unfolding get_simplified
is_empty-simplify parse email s e h = rw e (simplify_angle s h)
