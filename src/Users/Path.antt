-- ===== src/Users/Path.antt =====
-- The lookups of `smf_internal_fetch_user_data` leave the spool file of the session.
use spmfilter.Base.{
  ◌≡◌, refl, ◌∙◌, inl, inr, Bool-cases, Option-cases, Option, none, some, List, [], ◌∷◌, Bytes,
  codes,
}
use spmfilter.Dict.{Dict}
use spmfilter.Settings.{Settings}
use spmfilter.Session.{Session}
use spmfilter.System.{System}
use spmfilter.Users.{
  is_backend, query_text, add_user, query_with, query_user, query_all, query_sender, has_query,
  fetch_user_data,
}

module _ {M W : Type 0} (sys : System M W) (st : Settings) where
  add_user-path :
      (s : Session M) (addr : Bytes) (result : Option (List Dict))
      → (add_user sys st s addr result).message_file ≡ s.message_file
  unfolding add_user
  add_user-path s addr none = refl
  add_user-path s addr (some result) = refl

  query_with-path :
      (format : Option Bytes) (lookup : W → Settings → Bytes → Option (List Dict) × W)
      (addr : Bytes) (s : Session M) (w : W)
      → (query_with sys st format lookup addr s w).1.message_file ≡ s.message_file
  unfolding query_with
  query_with-path format lookup addr s w = elim (Option-cases (query_text sys st format addr)) [
    | inl n ↦ rw (n, query_with) refl
    | inr (q, e) ↦ rw (e, query_with) (add_user-path s addr (lookup w st q).0)
  ]

  query_user-path :
      (addr : Bytes) (s : Session M) (w : W)
      → (query_user sys st addr s w).1.message_file ≡ s.message_file
  unfolding query_user
  query_user-path [] s w = refl
  query_user-path (c ∷ cs) s w = elim (Bool-cases (is_backend st (codes "ldap"))) [
    | inl y ↦ rw y (query_with-path st.ldap_user_query sys.ldap_query (c ∷ cs) s w)
    | inr n ↦ elim (Bool-cases (is_backend st (codes "sql"))) [
      | inl y ↦ rw (n, y) (query_with-path st.sql_user_query sys.sql_query (c ∷ cs) s w)
      | inr m ↦ rw (n, m) refl
    ]
  ]

  query_all-path :
      (addrs : List Bytes) (s : Session M) (w : W)
      → (query_all sys st addrs s w).0.message_file ≡ s.message_file
  unfolding query_all
  query_all-path [] s w = refl
  query_all-path (addr ∷ rest) s w =
      let (_, s1, w1) = query_user sys st addr s w in
      query_all-path rest s1 w1 ∙ query_user-path addr s w

  query_sender-path :
      (sender : Option Bytes) (s : Session M) (w : W)
      → (query_sender sys st sender s w).0.message_file ≡ s.message_file
  unfolding query_sender
  query_sender-path none s w = refl
  query_sender-path (some addr) s w = query_user-path addr s w

  pub fetch_user_data-path :
      (s : Session M) (w : W) → (fetch_user_data sys st s w).0.message_file ≡ s.message_file
  unfolding fetch_user_data
  fetch_user_data-path s w = elim (Bool-cases (has_query sys st)) [
    | inl y ↦ rw y (
        let (s1, w1) = query_all sys st s.envelope.recipients s w in
        query_sender-path s1.envelope.sender s1 w1 ∙ query_all-path s.envelope.recipients s w)
    | inr n ↦ rw n refl
  ]
