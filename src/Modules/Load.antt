-- ===== src/Modules/Load.antt =====
-- How a module is found and loaded: `smf_module_create_handle`, `smf_module_create_callback` and
-- `smf_module_destroy` of src/smf_modules.c, and `smf_internal_build_module_path` of src/smf_internal.c
-- as it is compiled for systems with .so files.
use spmfilter.Base.{
  Bool, Option, none, some, ◌∷◌, ◌++◌, if◌then◌else◌, Bytes, codes, strncmp_eq, ℤ, pos, minus_one,
}

-- A name that starts with "lib" is that of a file.
unfoldable pub build_module_path : Bytes → Bytes → Bytes
unfolding codes
build_module_path libdir modname =
    let t =
      if strncmp_eq modname (codes "lib") 3
      then modname
      else codes "lib" ++ (modname ++ codes ".so") in
    libdir ++ (b'/' ∷ t)

-- The dynamic linker. `H` is a handle, `E` what the symbol "load" stands for and `W` the state.
pub record Linker (H E W : Type 0) : Type 0 where
  pub dlopen : W → Bytes → Option H × W
  pub dlsym : W → H → Option E × W
  -- true for 0
  pub dlclose : W → H → Bool × W
  -- `stat(name, &fstat) == 0 && S_ISREG(fstat.st_mode)`
  pub is_regular : W → Bytes → Bool
  -- LIB_DIR, which the build sets
  pub lib_dir : Bytes

abbrev pub directory : Option Bytes → Bytes → Bytes
directory none default = default
directory (some dir) default = dir

-- SMFModule_T: its handle, which may be NULL, or its callback.
pub data Loaded (H F : Type 0) : Type 0 where
  by_handle : Bytes → Option H → Loaded H F
  by_callback : Bytes → F → Loaded H F

module _ {H E W : Type 0} (ld : Linker H E W) where
  unfoldable pub create_handle : Option Bytes → Bytes → W → Option H × W
  create_handle lib_dir name w =
      ld.dlopen w (
        if ld.is_regular w name
        then name
        else build_module_path (directory lib_dir ld.lib_dir) name)

  -- A handle that could not be opened is stored all the same.
  unfoldable pub module_create : {F : Type 0} → Option Bytes → Bytes → Option F → W → Loaded H F × W
  module_create lib_dir name none w =
      let (handle, w1) = create_handle lib_dir name w in (by_handle name handle, w1)
  module_create lib_dir name (some callback) w = (by_callback name callback, w)

  unfoldable pub module_destroy : {F : Type 0} → Loaded H F → W → ℤ × W
  module_destroy (by_callback name callback) w = (pos 0, w)
  module_destroy (by_handle name none) w = (pos 0, w)
  module_destroy (by_handle name (some handle)) w =
      let (closed, w1) = ld.dlclose w handle in (if closed then pos 0 else minus_one, w1)
