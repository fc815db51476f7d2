-- ===== src/Base/Errors.antt =====
-- Go's `error` values, as far as the program tells them apart: the sentinel errors that
-- `errors.Is` looks for, errors of a library, and the wrappers of `fmt.Errorf`. The values that a
-- message formats by `%v` are left out of its text.
use Prim.Native.Nat.{ℕ}
use Prim.Native.String.{String}
use mathlib.Core.Bool.{Bool, false}
use server_watch.Base.Tests.{◌==◌}

pub data Sentinel : Type 0 where
  redis_nil canceled not_exist no_rows cache_miss invalid_yaml invalid_config : Sentinel

-- `wrap` is a message with `%w`; `wrap_with` shows another error by `%v` beside the wrapped one.
pub data Error : Type 0 where
  sentinel : Sentinel → Error
  message : String → Error
  foreign : ℕ → Error
  wrap : String → Error → Error
  wrap_with : String → Error → Error → Error

abbrev pub Sentinel_index : Sentinel → ℕ
Sentinel_index redis_nil = 0
Sentinel_index canceled = 1
Sentinel_index not_exist = 2
Sentinel_index cache_miss = 3
Sentinel_index invalid_yaml = 4
Sentinel_index invalid_config = 5
Sentinel_index no_rows = 6

-- `errors.Is`: the chain of wrapped errors is searched.
abbrev pub errors_is : Error → Sentinel → Bool
errors_is (sentinel s) t = Sentinel_index s == Sentinel_index t
errors_is (message m) t = false
errors_is (foreign n) t = false
errors_is (wrap m e) t = errors_is e t
errors_is (wrap_with m shown e) t = errors_is e t
