-- ===== src/Exceptions.antt =====
-- The Python exceptions that the runtime raises or lets through, without their messages.
use codename_madagascar.Prelude.{Bool, true, false}

pub data Exception : Type 0 where
  -- built-in classes
  value_error key_error index_error stop_iteration type_error runtime_error timeout_error
        not_implemented_error file_not_found_error :
      Exception
  -- runtime/errors.py, runtime/checkpoint.py
  graph_deadlock_error checkpoint_drift_error : Exception
  -- sandbox/lcb_official.py
  sandbox_unavailable_error : Exception

-- `except (ValueError, KeyError, TimeoutError)`, the clause of the executors.
unfoldable pub is_caught : Exception → Bool
is_caught value_error = true
is_caught key_error = true
is_caught timeout_error = true
is_caught _ = false
