-- ===== src/Tests/Cleanup.antt =====
-- A DATA command on a file store that keeps what it is given and forgets what is removed.
use mathlib.Core.Path.{subst}
use mathlib.Core.Option.{some_inj, none-ne-some}
use spmfilter.Session.{Session}
use spmfilter.Base.{
  ℤ, ◌≡◌, refl, Bool, true, false, some, none, List, [], ◌∷◌, if◌then◌else◌, Bool-cases, inl, inr,
  Bytes, codes, equal, ℕ,
}
use spmfilter.Internal.Readline.{Line}
use spmfilter.Settings.{Settings}
use spmfilter.System.{System}
use spmfilter.Spool.{gen_queue_file}
use spmfilter.Smtpd.Data.RoundTrip.{sent}
use spmfilter.Modules.Path.{Keeping}
use spmfilter.Smtpd.Data.Process.{process_data}
use spmfilter.Smtpd.Data.Cleanup.{Removing, IsGone, process_data_clean}
use spmfilter.Tests.Fixture.{Files, file_at, disk, mx, with_modules, ready}

abbrev present : Files → Bytes → Bool
present files path = elim (file_at files path) [ none ↦ false | some content ↦ true ]

without : Files → Bytes → Files
without [] path = []
without ((p, content) ∷ files) path =
    let rest = without files path in if equal p path then rest else (p, content) ∷ rest

present-without : (files : Files) (path : Bytes) → present (without files path) path ≡ false
unfolding without
present-without [] path = refl
present-without ((p, content) ∷ files) path = elim (Bool-cases (equal p path)) [
  | inl y ↦ rw y (present-without files path)
  | inr n ↦ rw (n, present, file_at, n) (present-without files path)
]

abbrev store : System ℕ Files
store = record disk { is_file = present; unlink = λ w path. some (without w path) }

store-Removing : Removing store
unfolding Removing
store-Removing w w1 path e =
    subst (λ x. present x path ≡ false) (some_inj.0 e) (present-without w path)

-- The modules of the examples.
store-Keeping : Keeping store
unfolding Keeping
store-Keeping name run e =
    let Keeps = λ (f : Settings → Session ℕ → Files → ℤ × Session ℕ × Files).
      (st : Settings) (s : Session ℕ) (w : Files) → (f st s w).1.message_file ≡ s.message_file in
    elim (Bool-cases (equal name (codes "clean"))) [
      | inl y ↦ subst Keeps (some_inj.0 (rw y at e)) (λ st s w. refl)
      | inr n ↦ elim (Bool-cases (equal name (codes "reject"))) [
        | inl y ↦ subst Keeps (some_inj.0 (rw (n, y) at e)) (λ st s w. refl)
        | inr m ↦ absurd (none-ne-some run (rw (n, m) at e))
      ]
    ]

abbrev site : Settings
site = with_modules (codes "reject" ∷ [])

abbrev arrived : List Line
arrived = sent (codes "To: a@b\r\n" ∷ codes "\r\n" ∷ codes "hello\r\n" ∷ []) []

spool_opens :
    let (path, w) = gen_queue_file store site ready.session.id ready.world in
    store.write_file w path [] ≡ some ((path, []) ∷ w)
spool_opens = refl

process_data_clean_example :
    let (path, w) = gen_queue_file store site ready.session.id ready.world in
    IsGone store (process_data store mx site arrived ready).0.world path
process_data_clean_example =
    let (path, w) = gen_queue_file store site ready.session.id ready.world in
    process_data_clean store mx site arrived ready ((path, []) ∷ w) store-Removing store-Keeping
      spool_opens refl
