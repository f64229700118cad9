-- ===== src/Smtpd/Data/Spool.antt =====
-- What the receiving loop of `smf_smtpd_process_data` has in its variables at the end.
use spmfilter.Base.{
  ℕ, ◌+◌, ◌≡◌, refl, sym, ◌∙◌, inl, inr, Bool, true, false, not, ◌&&◌, ◌||◌, List, [], ◌∷◌, ◌++◌,
  map, append-nil, append_assoc, arith, String, if◌then◌else◌, Bool-cases, length, Bytes, c_text,
  codes, strncasecmp_eq,
}
use spmfilter.Internal.Readline.{Line}
use spmfilter.Smtpd.Data.Receive.{
  Received, nothing_received, is_end, unstuff, is_message_id, is_header_line, is_blank, take_line,
  receive,
}

-- The lines in front of the one that ends the message, and those behind it.
unfoldable pub before_end : List Line → List Line
before_end [] = []
before_end (l ∷ ls) = let later = before_end ls in if is_end l.text then [] else l ∷ later

unfoldable pub after_end : List Line → List Line
after_end [] = []
after_end (l ∷ ls) = let later = after_end ls in if is_end l.text then ls else later

-- What the loop writes for a line.
abbrev pub received : Line → Bytes
received l = c_text (unstuff l.text)

unfoldable pub concat : List Bytes → Bytes
concat [] = []
concat (l ∷ ls) = l ++ concat ls

unfoldable pub total : List Line → ℕ
total [] = 0
total (l ∷ ls) = l.count + total ls

-- The lines of the header, with the blank line that ends it.
unfoldable pub header_part : List Bytes → List Bytes
header_part [] = []
header_part (l ∷ ls) = let later = header_part ls in if is_blank l then l ∷ [] else l ∷ later

unfoldable pub any : (Bytes → Bool) → List Bytes → Bool
any p [] = false
any p (l ∷ ls) = p l || any p ls

-- A header field: the name and its colon, whatever the case.
unfoldable pub begins : String → Bytes → Bool
begins name l = strncasecmp_eq l (codes name) (length (codes name))

receive_from :
    (lines : List Line) (d : Received)
    → ((receive lines d).0.spool ≡ d.spool ++ concat (map received (before_end lines)))
      × (((receive lines d).0.size ≡ d.size + total (before_end lines))
          × ((receive lines d).1 ≡ after_end lines))
unfolding receive before_end after_end concat total take_line
receive_from [] d = (sym (append-nil d.spool), (omega arith, refl))
receive_from (l ∷ ls) d = elim (Bool-cases (is_end l.text)) [
  | inl y ↦ rw y (sym (append-nil d.spool), (omega arith, refl))
  | inr n ↦
      let ih = receive_from ls (take_line d (unstuff l.text) l.count) in
      rw n (
        ih.0 ∙ append_assoc d.spool (received l) (concat (map received (before_end ls))),
        (omega (arith, ih.1.0), ih.1.1),
      )
]

-- The loop takes the lines up to the first one for which `is_end` holds, and none behind it. The
-- spool file holds `received` of each of them, and the size is the sum of what the calls of
-- `smf_internal_readline` have returned for them.
pub receive_lem :
    (lines : List Line)
    → ((receive lines nothing_received).0.spool ≡ concat (map received (before_end lines)))
      × (((receive lines nothing_received).0.size ≡ total (before_end lines))
          × ((receive lines nothing_received).1 ≡ after_end lines))
receive_lem lines =
    let h = receive_from lines nothing_received in (h.0, (omega (arith, h.1.0), h.1.1))

any-header_part :
    (p : Bytes → Bool) (l : Bytes) (ls : List Bytes)
    → any p (header_part (l ∷ ls)) ≡ (p l || (if is_blank l then false else any p (header_part ls)))
unfolding any header_part
any-header_part p l ls = elim (Bool-cases (is_blank l)) [ inl y ↦ rw y refl | inr n ↦ rw n refl ]

-- One turn of the loop, for a flag that is set in the header.
set_step :
    (p inh seen blank rest : Bool)
    → ((if p && inh then true else seen) || ((if blank then false else inh) && rest))
      ≡ (seen || (inh && (p || (if blank then false else rest))))
set_step p inh seen blank rest = ground arith

search_step :
    (p inh seen blank rest : Bool)
    → ((if not seen && inh then p else seen) || ((if blank then false else inh) && rest))
      ≡ (seen || (inh && (p || (if blank then false else rest))))
search_step p inh seen blank rest = ground arith

keep_step : (p seen rest : Bool) → ((if seen then true else p) || rest) ≡ (seen || (p || rest))
keep_step p seen rest = ground arith

-- The flags that the loop leaves, given those that it has begun with.
Flags : Received → Received → List Bytes → Type 0
Flags d e ls =
    (e.found_mid ≡ (d.found_mid || (d.in_header && any is_message_id (header_part ls))))
    × ((e.found_to ≡ (d.found_to || (d.in_header && any (begins "To:") (header_part ls))))
        × ((e.found_from ≡ (d.found_from || (d.in_header && any (begins "From:") (header_part ls))))
            × ((e.found_date
                  ≡ (d.found_date || (d.in_header && any (begins "Date:") (header_part ls))))
                × (e.found_header ≡ (d.found_header || any is_header_line ls)))))

Flags-none : (d : Received) → Flags d d []
unfolding Flags any header_part
Flags-none d = (ground arith, (ground arith, (ground arith, (ground arith, ground arith))))

Flags-step :
    (d : Received) (l : Bytes) (br : ℕ) (e : Received) (ls : List Bytes)
    → Flags (take_line d l br) e ls
    → Flags d e (c_text l ∷ ls)
unfolding Flags take_line begins codes any
Flags-step d l br e ls h = (
  rw (any-header_part is_message_id (c_text l) ls)
      (h.0 ∙ search_step _ d.in_header d.found_mid _ _),
  (
    rw (any-header_part (begins "To:") (c_text l) ls)
        (h.1.0 ∙ set_step _ d.in_header d.found_to _ _),
    (
      rw (any-header_part (begins "From:") (c_text l) ls)
          (h.1.1.0 ∙ set_step _ d.in_header d.found_from _ _),
      (
        rw (any-header_part (begins "Date:") (c_text l) ls)
            (h.1.1.1.0 ∙ set_step _ d.in_header d.found_date _ _),
        h.1.1.1.1 ∙ keep_step (is_header_line (c_text l)) d.found_header _,
      ),
    ),
  ),
)

Flags-from :
    (lines : List Line) (d : Received)
    → Flags d (receive lines d).0 (map received (before_end lines))
unfolding receive before_end
Flags-from [] d = Flags-none d
Flags-from (l ∷ ls) d = elim (Bool-cases (is_end l.text)) [
  | inl y ↦ rw y (Flags-none d)
  | inr n ↦ rw n (
      Flags-step d (unstuff l.text) l.count (receive ls (take_line d (unstuff l.text) l.count)).0
        (map received (before_end ls)) (Flags-from ls (take_line d (unstuff l.text) l.count)))
]

-- The flags that decide which fields are added stand for the header of the message: a line of it,
-- down to the first blank line, begins with `Message-ID:`, `To:`, `From:` or `Date:`, whatever the
-- case. The flag `found_header` is set by a colon anywhere in the message, its body too.
pub receive_flags :
    (lines : List Line)
    → let ls = map received (before_end lines) in
      let d = (receive lines nothing_received).0 in
      (d.found_mid ≡ any is_message_id (header_part ls))
      × ((d.found_to ≡ any (begins "To:") (header_part ls))
          × ((d.found_from ≡ any (begins "From:") (header_part ls))
              × ((d.found_date ≡ any (begins "Date:") (header_part ls))
                  × (d.found_header ≡ any is_header_line ls))))
unfolding Flags
receive_flags lines = Flags-from lines nothing_received
