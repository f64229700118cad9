-- ===== src/Modules/Order.antt =====
-- The modules run in the order of the settings, up to the first one that stops the queue.
use spmfilter.Base.{
  ℕ, ◌+◌, ◌≡◌, refl, ap, ◌∙◌, false, ◌⊎◌, inl, inr, minus_one, List, [], ◌∷◌, ◌++◌, append-nil,
  arith, if◌then◌else◌, length, Bytes, codes, ℤ, pos, eq_ℤ,
}
use spmfilter.Settings.{Settings}
use spmfilter.System.{System}
use spmfilter.Users.{fetch_user_data}
use spmfilter.Modules.Headers.{copy_headers}
use spmfilter.Session.{Session}
use spmfilter.Modules.Invoke.{module_invoke}
use spmfilter.Modules.Process.{
  State, ProcessQueue, LoopEnd, stopped, finished, Verdict, continue, leave, give_up, append_name,
  verdict, judge, run_modules, conclude, modules_process,
}

-- The names with `, ` between them.
unfoldable pub joined : List Bytes → Bytes
joined [] = []
joined (name ∷ []) = name
joined (name ∷ next ∷ names) = name ++ (codes ", " ++ joined (next ∷ names))

-- The header text behind a number of modules.
grown : Settings → ℕ → List Bytes → Bytes → Bytes
grown st k [] header = header
grown st k (name ∷ names) header = grown st (k + 1) names (append_name st (k + 1) name header)

module _ {M W : Type 0} (sys : System M W) (st : Settings) where
  -- What `smf_modules_process` has before the first module.
  unfoldable pub before_modules : State M W → State M W
  before_modules s =
      let (session', world') = fetch_user_data sys st s.session s.world in
      record s { session = session'; world = world' }

  -- The state behind one module.
  unfoldable pub after_module : Bytes → State M W → State M W
  after_module name s =
      let (result, session', world') = module_invoke sys st name s.session s.world in
      record s { session = session'; world = world' }

  -- The modules have run one after another, and each has returned 0.
  pub data Chain : List Bytes → State M W → State M W → Type 0 where
    all_run : {s : State M W} → Chain [] s s
    module_ok :
        {name : Bytes} {names : List Bytes} {s s' : State M W}
        → (module_invoke sys st name s.session s.world).0 ≡ pos 0
        → Chain names (after_module name s) s'
        → Chain (name ∷ names) s s'

module _ {M W : Type 0} (sys : System M W) (q : ProcessQueue M) (st : Settings) where
  -- The loop goes on with the verdict on one module and the replies of the handler.
  turn : Bytes → List Bytes → ℕ → Bytes → State M W → Verdict × List Bytes → LoopEnd M W
  turn name names k header s v =
      let (result, session', world') = module_invoke sys st name s.session s.world in
      let s' : State M W = record { session = session'; world = world'; out = s.out ++ v.1 } in
      elim (v.0) [
        | give_up code ↦ stopped code s'
        | leave ↦ finished (pos 2) header s'
        | continue ret ↦
            run_modules sys q st names (k + 1) ret (append_name st (k + 1) name header) s'
      ]

  run_turn :
      (name : Bytes) (names : List Bytes) (k : ℕ) (ret : ℤ) (header : Bytes) (s : State M W)
      (v : Verdict × List Bytes)
      → let r = module_invoke sys st name s.session s.world in
        judge sys q st r.0 r.1 ≡ v
        → run_modules sys q st (name ∷ names) k ret header s ≡ turn name names k header s v
  unfolding run_modules turn
  run_turn name names k ret header s v e = ap (turn name names k header s) e

  run_one :
      (name : Bytes) (names : List Bytes) (k : ℕ) (header : Bytes) (s : State M W)
      → (module_invoke sys st name s.session s.world).0 ≡ pos 0
      → run_modules sys q st (name ∷ names) k (pos 0) header s
        ≡ run_modules sys q st names
            (k + 1)
            (pos 0)
            (append_name st (k + 1) name header)
            (after_module sys st name s)
  unfolding judge after_module eq_ℤ turn
  run_one name names k header s e =
      run_turn name names k (pos 0) header s (continue (pos 0), []) (rw e refl)
      ∙ ap
          (λ o.
            run_modules sys q st names (k + 1) (pos 0) (append_name st (k + 1) name header)
              (record (after_module sys st name s) { out = o }))
          (append-nil s.out)

  run_modules-append :
      {names : List Bytes} {s s' : State M W} (rest : List Bytes) (k : ℕ) (header : Bytes)
      → Chain sys st names s s'
      → run_modules sys q st (names ++ rest) k (pos 0) header s
        ≡ run_modules sys q st rest (k + length names) (pos 0) (grown st k names header) s'
  unfolding grown
  run_modules-append {s = s} rest k header all_run =
      ap (λ n. run_modules sys q st rest n (pos 0) header s) (omega arith)
  run_modules-append rest k header (module_ok {name} {names} {s} {s'} e c) =
      run_one name (names ++ rest) k header s e
      ∙ (run_modules-append rest (k + 1) (append_name st (k + 1) name header) c
          ∙ ap
              (λ n.
                run_modules sys q st rest n (pos 0)
                  (grown st (k + 1) names (append_name st (k + 1) name header)) s')
              (omega arith))

  unfoldable pub first_text : Bytes
  first_text = if eq_ℤ st.add_header (pos 1) then codes "X-Spmfilter: " else []

  -- A code of `processing_error` that stops the queue, with what the call then returns.
  unfoldable pub Stops : ℤ → ℤ → Type 0
  Stops ret code = ((ret ≡ pos 0) × (code ≡ minus_one)) ⊎ ((ret ≡ pos 1) × (code ≡ pos 1))

  verdict_lem : (ret code : ℤ) → Stops ret code → verdict ret ≡ give_up code
  unfolding verdict Stops eq_ℤ
  verdict_lem ret code (inl (r, c)) = rw (r, c) refl
  verdict_lem ret code (inr (r, c)) = rw (r, c) refl

  judge_lem :
      (result ret code : ℤ) (replies : List Bytes) (s : Session M)
      → eq_ℤ result (pos 0) ≡ false
      → q.processing_error st s result ≡ (ret, replies)
      → Stops ret code
      → judge sys q st result s ≡ (give_up code, replies)
  unfolding judge
  judge_lem result ret code replies s n e h = rw (n, e, verdict_lem ret code h) refl

  -- A module returns other than 0, and `processing_error` returns 0 or 1 for that: it is the last one
  -- that runs. Whatever modules follow it, `smf_modules_process` returns -1 where the handler has
  -- returned 0, and 1 where it has returned 1, and leaves the state as that module and the handler's
  -- replies have left it, without a flush and without a delivery. All modules before it return 0.
  pub modules_process-stop :
      {before : List Bytes} {s1 : State M W} (name : Bytes) (later : List Bytes) (ret code : ℤ)
      (replies : List Bytes) (msg : M) (s : State M W)
      → st.modules ≡ before ++ name ∷ later
      → Chain sys st before (before_modules sys st s) s1
      → let r = module_invoke sys st name s1.session s1.world in
        eq_ℤ r.0 (pos 0) ≡ false
        → q.processing_error st r.1 r.0 ≡ (ret, replies)
        → Stops ret code
        → modules_process sys q st msg s
          ≡ (code, record (after_module sys st name s1) { out = s1.out ++ replies })
  unfolding modules_process before_modules first_text conclude turn after_module
  modules_process-stop {before} {s1} name later ret code replies msg s e c n h stops =
      let initial = copy_headers (sys.headers s.world msg) in
      let r = module_invoke sys st name s1.session s1.world in
      ap (conclude sys q st msg initial) (
        ap (λ ms. run_modules sys q st ms 0 (pos 0) (first_text) (before_modules sys st s)) e
        ∙ (run_modules-append (name ∷ later) 0 (first_text) c
            ∙ run_turn name later (0 + length before) (pos 0) (grown st 0 before (first_text)) s1
                (give_up code, replies) (judge_lem r.0 ret code replies r.1 n h stops)))
