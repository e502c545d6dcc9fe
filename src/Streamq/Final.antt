-- ===== src/Streamq/Final.antt =====
-- When a handler's outcome is final, told without the tests of the consumer.
use guangyang.Prelude.{◌≡◌, ◌↔◌, refl, true, none, some}
use guangyang.Errors.{GoError, new, wrap, terminal, terminal_nil, is_terminal}
use guangyang.Streamq.{Outcome, returned, panicked, settles, result_of}

-- A TerminalError stands somewhere in the chain that Unwrap walks.
pub data HasTerminal : GoError → Type 0 where
  here : (e : GoError) → HasTerminal (terminal e)
  here_nil : HasTerminal terminal_nil
  below : {e : GoError} (prefix : _) → HasTerminal e → HasTerminal (wrap prefix e)

-- The handler returned nil or an error with a TerminalError in its chain, or it panicked.
pub data IsFinal : Outcome → Type 0 where
  nil : IsFinal (returned none)
  gave_up : {e : GoError} → HasTerminal e → IsFinal (returned (some e))
  fell_over : (text : _) → IsFinal (panicked text)

is_terminal-HasTerminal : (e : GoError) → is_terminal e ≡ true → HasTerminal e
unfolding is_terminal
is_terminal-HasTerminal (new s) h = absurd (cc)
is_terminal-HasTerminal (wrap p e) h = below p (is_terminal-HasTerminal e h)
is_terminal-HasTerminal (terminal e) h = here e
is_terminal-HasTerminal terminal_nil h = here_nil

HasTerminal-is_terminal : {e : GoError} → HasTerminal e → is_terminal e ≡ true
unfolding is_terminal
HasTerminal-is_terminal (here e) = refl
HasTerminal-is_terminal here_nil = refl
HasTerminal-is_terminal (below p h) = HasTerminal-is_terminal h

-- The consumer settles exactly the final outcomes.
pub settles-IsFinal : (o : Outcome) → (settles (result_of o) ≡ true) ↔ IsFinal o
unfolding settles result_of is_terminal
settles-IsFinal (returned none) = ((λ h. nil), λ h. refl)
settles-IsFinal (returned (some e)) = ((λ h. gave_up (is_terminal-HasTerminal e h)), back)
  where
    back : IsFinal (returned (some e)) → is_terminal e ≡ true
    back (gave_up t) = HasTerminal-is_terminal t
settles-IsFinal (panicked text) = ((λ h. fell_over text), λ h. refl)
