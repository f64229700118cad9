-- ===== src/Modules/Codes.antt =====
-- The codes that the flush and the delivery return.
use spmfilter.Base.{
  ◌≡◌, refl, ◌⊎◌, inl, inr, Bool, true, false, Option, List, [], ◌∷◌, ◌++◌, arith, if◌then◌else◌,
  Bool-cases, Option-cases, Bytes, codes, ℤ, pos, minus_one, positive,
}
use spmfilter.Settings.{Settings}
use spmfilter.Session.{Session}
use spmfilter.Envelope.{Envelope}
use spmfilter.System.{System, Header}
use spmfilter.Message.{write_skip_header}
use spmfilter.Modules.Headers.{is_dirty}
use spmfilter.Modules.Flush.{merge_body, rewrite_file, flush_dirty}
use spmfilter.Nexthop.{
  copy_recipients, default_sender, smtp_delivery_nexthop, file_delivery_nexthop,
}

pub if_both :
    {A : Type 0} (P : A → Type 0) (b : Bool) (x y : A) → P x → P y → P (if b then x else y)
if_both P true x y hx hy = hx
if_both P false x y hx hy = hy

module _ {M W : Type 0} (sys : System M W) (st : Settings) where
  pub List-cases :
      (xs : List Bytes) → (xs ≡ []) ⊎ ((a : Bytes) × ((rest : List Bytes) × (xs ≡ a ∷ rest)))
  List-cases [] = inl refl
  List-cases (x ∷ xs) = inr (x, (xs, refl))

  pub file_delivery-code :
      (hop : Bytes) (s : Session M) (w : W)
      → let code = (file_delivery_nexthop sys hop s w).0 in (code ≡ pos 0) ⊎ (code ≡ minus_one)
  unfolding file_delivery_nexthop
  file_delivery-code hop s w = elim (Option-cases s.message_file) [
    | inr (path, e) ↦ elim (Option-cases (sys.read_file w path)) [
      | inl n ↦ rw (e, n, file_delivery_nexthop) (inr refl)
      | inr (content, e1) ↦ elim (Option-cases (sys.write_file w hop content)) [
        | inl n ↦ rw (e, e1, n, file_delivery_nexthop) (inr refl)
        | inr (w', e2) ↦ rw (e, e1, e2, file_delivery_nexthop) (inl refl)
      ]
    ]
    | inl n ↦ elim (Option-cases s.envelope.message) [
      | inl n1 ↦ rw (n, n1, file_delivery_nexthop) (inr refl)
      | inr (m, e1) ↦ elim (Bool-cases (positive (sys.to_file w m hop).0)) [
        | inl y ↦ rw (n, e1, y, file_delivery_nexthop) (inl refl)
        | inr z ↦ rw (n, e1, z, file_delivery_nexthop) (inr refl)
      ]
    ]
  ]

  pub smtp_delivery-code :
      (hop : Bytes) (s : Session M) (w : W)
      → let code = (smtp_delivery_nexthop sys st hop s w).0 in (code ≡ pos 0) ⊎ (code ≡ minus_one)
  unfolding smtp_delivery_nexthop
  smtp_delivery-code hop s w =
      let e : Envelope M = copy_recipients sys w (default_sender s.envelope) in
      elim (List-cases e.recipients) [
        | inl n ↦ rw (n, smtp_delivery_nexthop) (inr refl)
        | inr (a, (rest, n)) ↦ rw (n, smtp_delivery_nexthop) ground arith
      ]

  unfoldable pub IsCode : ℤ × W → Type 0
  IsCode (code, w) = (code ≡ pos 0) ⊎ (code ≡ minus_one)

  merge_body-IsCode : (tmp path head : Bytes) (w : W) → IsCode (merge_body sys tmp path head w)
  unfolding merge_body IsCode
  merge_body-IsCode tmp path head w = elim (Option-cases (sys.read_file w path)) [
    | inl n ↦ rw (n, merge_body) (inr refl)
    | inr (old, e) ↦ elim (Option-cases (sys.write_file w tmp (head ++ write_skip_header old))) [
      | inl n ↦ rw (e, n, merge_body) (inr refl)
      | inr (w1, e1) ↦ elim (Option-cases (sys.unlink w1 path)) [
        | inl n ↦ rw (e, e1, n, merge_body) (inr refl)
        | inr (w2, e2) ↦ elim (Option-cases (sys.rename w2 tmp path)) [
          | inl n ↦ rw (e, e1, e2, n, merge_body) (inr refl)
          | inr (w3, e3) ↦ rw (e, e1, e2, e3, merge_body) (inl refl)
        ]
      ]
    ]
  ]

  rewrite_file-IsCode :
      (dir : Bytes) (file : Option Bytes) (m : M) (w : W) → IsCode (rewrite_file sys dir file m w)
  unfolding rewrite_file IsCode
  rewrite_file-IsCode dir file m w = elim (Option-cases (sys.mkstemp w (dir ++ codes "/XXXXXX"))) [
    | inl n ↦ rw (n, rewrite_file) (inr refl)
    | inr ((tmp, w1), e) ↦ elim (Option-cases (sys.write_file w1 tmp (sys.to_string w1 m))) [
      | inl n ↦ rw (e, n, rewrite_file) (inr refl)
      | inr (w2, e1) ↦ elim (Option-cases file) [
        | inl n ↦ rw (e, e1, n, rewrite_file) (inr refl)
        | inr (path, e2) ↦
            rw (e, e1, e2, rewrite_file) (merge_body-IsCode tmp path (sys.to_string w1 m) w2)
      ]
    ]
  ]

  pub flush_dirty-IsCode :
      (s : Session M) (m : M) (initial : List Header) (w : W)
      → IsCode (flush_dirty sys st s m initial w)
  unfolding flush_dirty IsCode
  flush_dirty-IsCode s m initial w =
      if_both IsCode (is_dirty (sys.headers w m) initial) _ _
        (rewrite_file-IsCode _ s.message_file m w) (inl refl)
