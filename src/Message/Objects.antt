-- ===== src/Message/Objects.antt =====
-- What src/smf_message.c does beside its calls of libcmime: the brackets of an id, the removal of a
-- header, and the loop that writes a message.
use mathlib.Core.Path.{subst}
use mathlib.Core.Option.{some_inj}
use spmfilter.Base.{
  ◌≡◌, refl, sym, ap, ◌∙◌, ◌⊎◌, inl, inr, true, false, Option, none, some, List, [], ◌∷◌, ◌++◌,
  append_assoc, append-nil, All, Bool-cases, ◌==◌, if◌then◌else◌, length, take, drop,
  take-append-drop, Bytes, ℤ, pos, minus_one,
}
use spmfilter.System.{Header}
use spmfilter.Settings.Facility.{strcasecmp_eq}
use spmfilter.Internal.Transfer.{Wrote, interrupted, broken, wrote}

-- `smf_message_generate_message_id`, for the id that libcmime makes.
unfoldable pub message_id : Bytes → Bytes
message_id [] = b'<' ∷ b'>' ∷ []
message_id (c ∷ cs) = if c == b'<' then c ∷ cs else b'<' ∷ (c ∷ cs) ++ b'>' ∷ []

-- `smf_message_remove_header`: -1, or what smf_list_remove returns, with the headers that remain.
unfoldable pub remove_header : List Header → Bytes → ℤ × List Header
remove_header [] name = (minus_one, [])
remove_header (h ∷ hs) name =
    let (r, rest) = remove_header hs name in
    if strcasecmp_eq h.name name then (pos 0, hs) else (r, h ∷ rest)

-- No header has the name and nothing is removed, or the first one that has it is.
pub data Removes (name : Bytes) (hs : List Header) (r : ℤ × List Header) : Type 0 where
  absent : All (λ h. strcasecmp_eq h.name name ≡ false) hs → r ≡ (minus_one, hs) → Removes name hs r
  removed :
      (before after : List Header) (h : Header)
      → hs ≡ before ++ h ∷ after
      → All (λ x. strcasecmp_eq x.name name ≡ false) before
      → strcasecmp_eq h.name name ≡ true
      → r ≡ (pos 0, before ++ after)
      → Removes name hs r

-- `smf_message_remove_header` removes the first header with the name, in any case, and returns 0; if there
-- is none it returns -1. All other headers stay in their order.
pub remove_header-Removes :
    (hs : List Header) (name : Bytes) → Removes name hs (remove_header hs name)
unfolding remove_header
remove_header-Removes [] name = absent tt refl
remove_header-Removes (h ∷ hs) name = elim (Bool-cases (strcasecmp_eq h.name name)) [
  | inl y ↦ removed [] hs h refl tt y (rw y refl)
  | inr n ↦ elim (remove_header-Removes hs name) [
    | absent all e ↦ absent (n, all) (rw n (ap (λ (r : ℤ × List Header). (r.0, h ∷ r.1)) e))
    | removed before after x s all y e ↦
        removed (h ∷ before) after x (ap (λ l. h ∷ l) s) (n, all) y
          (rw n (ap (λ (r : ℤ × List Header). (r.0, h ∷ r.1)) e))
  ]
]

-- `smf_message_to_fd`, with the bytes that are left: what is returned and what is sent. A call that writes
-- nothing is repeated; none while the loop waits for another call.
unfoldable pub to_fd_loop : List Wrote → Bytes → Bytes → Option (ℤ × Bytes)
to_fd_loop calls [] sent = some (pos (length sent), sent)
to_fd_loop [] (b ∷ bs) sent = none
to_fd_loop (interrupted ∷ calls) (b ∷ bs) sent = some (minus_one, sent)
to_fd_loop (broken ∷ calls) (b ∷ bs) sent = some (minus_one, sent)
to_fd_loop (wrote n ∷ calls) (b ∷ bs) sent =
    to_fd_loop calls (drop n (b ∷ bs)) (sent ++ take n (b ∷ bs))

unfoldable pub to_fd : List Wrote → Bytes → Option (ℤ × Bytes)
unfolding to_fd_loop
to_fd calls text = to_fd_loop calls text []

-- All of a text is sent and its length returned, or -1 is returned for a part of it.
abbrev pub Delivers : Bytes → ℤ × Bytes → Type 0
Delivers text r =
    (r ≡ (pos (length text), text)) ⊎ ((rest : Bytes) × ((text ≡ r.1 ++ rest) × (r.0 ≡ minus_one)))

to_fd_loop-Delivers :
    (calls : List Wrote) (left sent : Bytes) (r : ℤ × Bytes)
    → to_fd_loop calls left sent ≡ some r
    → Delivers (sent ++ left) r
unfolding to_fd_loop
to_fd_loop-Delivers calls [] sent r e =
    subst (λ x. Delivers x r) (sym (append-nil sent)) (inl (sym (some_inj.0 e)))
to_fd_loop-Delivers [] (b ∷ bs) sent r e = absurd (cc)
to_fd_loop-Delivers (interrupted ∷ calls) (b ∷ bs) sent r e =
    subst (Delivers (sent ++ (b ∷ bs))) (some_inj.0 e) (inr (b ∷ bs, (refl, refl)))
to_fd_loop-Delivers (broken ∷ calls) (b ∷ bs) sent r e =
    subst (Delivers (sent ++ (b ∷ bs))) (some_inj.0 e) (inr (b ∷ bs, (refl, refl)))
to_fd_loop-Delivers (wrote n ∷ calls) (b ∷ bs) sent r e =
    subst (λ x. Delivers x r)
      (append_assoc sent (take n (b ∷ bs)) (drop n (b ∷ bs))
        ∙ ap (λ t. sent ++ t) (take-append-drop n (b ∷ bs)))
      (to_fd_loop-Delivers calls (drop n (b ∷ bs)) (sent ++ take n (b ∷ bs)) r e)

-- When `smf_message_to_fd` returns, it has sent the text of the message, each byte once, and returns its
-- length, or a call of write has failed and it returns -1 for a part that the text begins with.
pub to_fd-Delivers :
    (calls : List Wrote) (text : Bytes) (r : ℤ × Bytes)
    → to_fd calls text ≡ some r
    → Delivers text r
unfolding to_fd
to_fd-Delivers calls text r e = to_fd_loop-Delivers calls text [] r e
