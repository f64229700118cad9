-- ===== src/Modules/Process.antt =====
-- `smf_modules_process`: the modules one after another, then the flush and the delivery. An engine
-- brings its queue handlers, which may write to its client: what they write is `out`.
use spmfilter.Base.{
  ℕ, ◌+◌, ◌||◌, none, some, List, [], ◌∷◌, ◌++◌, ◌==◌, if◌then◌else◌, length, Bytes, codes, ℤ, pos,
  minus_one, eq_ℤ,
}
use spmfilter.Settings.{Settings}
use spmfilter.Session.{Session}
use spmfilter.System.{System, Header}
use spmfilter.Users.{fetch_user_data}
use spmfilter.Modules.Headers.{copy_headers}
use spmfilter.Modules.Invoke.{module_invoke}
use spmfilter.Modules.Flush.{flush_dirty}
use spmfilter.Nexthop.{
  NexthopFunction, no_nexthop, file_delivery, smtp_delivery, nexthop_find, smtp_delivery_nexthop,
  file_delivery_nexthop,
}

pub record State (M W : Type 0) : Type 0 where
  pub session : Session M
  pub world : W
  pub out : List Bytes

-- `SMFProcessQueue_T`, with the handlers that `smf_modules_process` calls. They read the session and
-- return a code and the replies that they write.
pub record ProcessQueue (M : Type 0) : Type 0 where
  pub processing_error : Settings → Session M → ℤ → ℤ × List Bytes
  pub nexthop_error : Settings → Session M → List Bytes

-- How the loop over the modules ends: with a return value, or with `ret` for what follows.
pub data LoopEnd (M W : Type 0) : Type 0 where
  stopped : ℤ → State M W → LoopEnd M W
  finished : ℤ → Bytes → State M W → LoopEnd M W

-- What one module does to the loop: return, break or go on.
pub data Verdict : Type 0 where
  give_up : ℤ → Verdict
  leave : Verdict
  continue : ℤ → Verdict

-- The ladder on what `processing_error` returned.
unfoldable pub verdict : ℤ → Verdict
verdict ret =
    if eq_ℤ ret (pos 0)
    then give_up minus_one
    else if eq_ℤ ret (pos 1)
    then give_up (pos 1)
    else if eq_ℤ ret (pos 2)
    then leave
    else continue ret

-- The header grows by the name, with a comma unless it is the last one's turn.
unfoldable pub append_name : Settings → ℕ → Bytes → Bytes → Bytes
append_name st mod_count name header =
    if eq_ℤ st.add_header (pos 1)
    then (if mod_count == length st.modules then header ++ name else header ++ (name ++ codes ", "))
    else header

module _ {M W : Type 0} (sys : System M W) (q : ProcessQueue M) (st : Settings) where
  -- The verdict on a module's return value, and the replies of the handler.
  unfoldable pub judge : ℤ → Session M → Verdict × List Bytes
  judge result s =
      if eq_ℤ result (pos 0)
      then (continue result, [])
      else (let (ret, replies) = q.processing_error st s result in (verdict ret, replies))

  -- The loop over the modules, from the one whose number is `mod_count`.
  unfoldable pub run_modules : List Bytes → ℕ → ℤ → Bytes → State M W → LoopEnd M W
  run_modules [] mod_count ret header s = finished ret header s
  run_modules (name ∷ names) mod_count ret header s =
      let (result, session', world') = module_invoke sys st name s.session s.world in
      let (v, replies) = judge result session' in
      let s' : State M W = record { session = session'; world = world'; out = s.out ++ replies } in
      elim v [
        | give_up code ↦ stopped code s'
        | leave ↦ finished (pos 2) header s'
        | continue ret' ↦
            run_modules names (mod_count + 1) ret' (append_name st (mod_count + 1) name header) s'
      ]

  -- The nexthop function that was found; on an error the engine's handler runs.
  unfoldable pub deliver : NexthopFunction → State M W → ℤ × State M W
  deliver no_nexthop s = (pos 0, s)
  deliver (file_delivery hop) s =
      let (ret, w) = file_delivery_nexthop sys hop s.session s.world in
      (
        ret,
        record s {
          world = w;
          out = s.out ++ (if eq_ℤ ret (pos 0) then [] else q.nexthop_error st s.session);
        },
      )
  deliver (smtp_delivery hop) s =
      let (ret, session', w) = smtp_delivery_nexthop sys st hop s.session s.world in
      (
        ret,
        record {
          session = session';
          world = w;
          out = s.out ++ (if eq_ℤ ret (pos 0) then [] else q.nexthop_error st session');
        },
      )

  -- `smf_modules_flush_dirty` on the message that the envelope has now, which may be NULL.
  unfoldable pub flush : List Header → State M W → ℤ × State M W
  flush initial s =
      let message : M = elim s.session.envelope.message [ none ↦ sys.null | some m ↦ m ] in
      let (ret, w) = flush_dirty sys st s.session message initial s.world in
      (ret, record s { world = w })

  -- What follows the loop, for the message `msg` that the call has begun with.
  unfoldable pub finish : M → List Header → ℤ → Bytes → State M W → ℤ × State M W
  finish msg initial ret header s =
      if eq_ℤ ret (pos 0) || eq_ℤ ret (pos 2)
      then (let s1 =
            if eq_ℤ st.add_header (pos 1)
            then record s { world = sys.set_header s.world msg header }
            else s in
          let (code, s2) = flush initial s1 in
          if eq_ℤ code (pos 0) then deliver (nexthop_find sys st s2.world) s2 else (code, s2))
      else (ret, s)

  unfoldable pub conclude : M → List Header → LoopEnd M W → ℤ × State M W
  conclude msg initial (stopped code s) = (code, s)
  conclude msg initial (finished ret header s) = finish msg initial ret header s

  -- `smf_modules_process`, on a session whose envelope has the message `msg`.
  unfoldable pub modules_process : M → State M W → ℤ × State M W
  modules_process msg s =
      let initial = copy_headers (sys.headers s.world msg) in
      let header = if eq_ℤ st.add_header (pos 1) then codes "X-Spmfilter: " else [] in
      let (session', world') = fetch_user_data sys st s.session s.world in
      conclude msg initial
        (run_modules st.modules 0 (pos 0) header (record s { session = session'; world = world' }))
