-- ===== src/Errors.antt =====
-- Go's error values, and the terminal errors of gobackend/streamq/streamq.go. An error that may be
-- nil is an `Option`.
use guangyang.Prelude.{Bool, true, false, ◌++◌, Option, none, some}
use guangyang.Text.{Str, codes}

pub data GoError : Type 0 where
  new : Str → GoError  -- errors.New, and errors from elsewhere
  wrap : Str → GoError → GoError  -- fmt.Errorf("prefix%w", err)
  terminal : GoError → GoError  -- TerminalError{Err: err}
  terminal_nil : GoError  -- TerminalError{Err: nil}

-- err.Error()
unfoldable pub message : GoError → Str
message (new s) = s
message (wrap p e) = p ++ message e
message (terminal e) = message e
message terminal_nil = codes "terminal"

-- streamq.Terminal
abbrev pub to_terminal : Option GoError → Option GoError
to_terminal none = some terminal_nil
to_terminal (some e) = some (terminal e)

-- streamq.IsTerminal: errors.As looks through the chain that Unwrap gives.
unfoldable pub is_terminal : GoError → Bool
is_terminal (new s) = false
is_terminal (wrap p e) = is_terminal e
is_terminal (terminal e) = true
is_terminal terminal_nil = true

pub data Result {ℓ} (A : Type ℓ) : Type ℓ where
  ok : A → Result A
  err : GoError → Result A
