-- ===== src/History.antt =====
-- src/history.h and src/history.c: the last command. A null pointer is `none`; `strdup` gives a copy
-- that is equal.
use spray.Base.{Option, none, some, CString}

pub record History : Type 0 where
  pub command : Option CString

unfoldable pub init_history : History
init_history = record { command = none }

unfoldable pub save_command : History → CString → History
save_command history line = record { command = some line }

-- `none` is `SP_ERR`.
unfoldable pub read_command : History → Option CString
read_command history = history.command
