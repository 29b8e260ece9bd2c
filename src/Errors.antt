-- ===== src/Errors.antt =====
-- src/error.rs: the library's error type, without the texts and conversions that its derives make.
use Prim.Native.String.{String}
use atoman_rs.Prelude.{Text}

-- A boxed error of another kind, such as the caller's or that of the standard library.
pub data DynError : Type 0 where
  boxed : String → DynError

-- The errors of the operating system are boxed ones here.
pub data Error : Type 0 where
  custom : Text → Error
  titled : Text → DynError → Error
  config_ext : Text → Error
  parse_config : DynError → Error
  open_file : DynError → Error
  read_file : DynError → Error
  channel_closed : Error
  channel_full : Error
