-- ===== src/Spool.antt =====
-- `smf_core_gen_queue_file` of src/smf_core.c: the file that a message is spooled to.
use spmfilter.Base.{none, some, ◌++◌, Bytes, codes, printf_s}
use spmfilter.Settings.{Settings}
use spmfilter.System.{System}

abbrev pub queue_dir_of : Settings → Bytes
queue_dir_of st = printf_s st.queue_dir

module _ {M W : Type 0} (sys : System M W) (st : Settings) where
  -- Where `mkstemp` fails, the template stays as the path.
  unfoldable pub gen_queue_file : Bytes → W → Bytes × W
  unfolding codes
  gen_queue_file sid w =
      let template = queue_dir_of st ++ (codes "/" ++ (sid ++ codes ".XXXXXX")) in
      elim (sys.mkstemp w template) [ none ↦ (template, w) | some (path, w') ↦ (path, w') ]
