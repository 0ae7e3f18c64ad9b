-- ===== src/Mutator/Connect.antt =====
-- src/mutator/mutator.py: ConnectMutator
use crash_simulator.Base.{Bool, ◌&&◌, List, [], ◌∷◌, ◌++◌, if◌then◌else◌}
use crash_simulator.Py.{Text, text, is_in, replace_first, Result, ok, raised, type_error}

module _ (orig_domain domain : Text) where
  unfoldable pub match_line : Text → Bool
  unfolding text
  match_line line = is_in (text "connect") line && is_in orig_domain line

  unfoldable pub mutate_line : Text → Text
  unfolding text
  mutate_line line =
      replace_first line (text "sa_family=" ++ orig_domain) (text "sa_family=" ++ domain)

  -- The item of `line`, a text, is assigned to: this raises, whatever mutate_line gives.
  unfoldable pub mutate_trace : List Text → Result (Unit {0})
  unfolding match_line
  mutate_trace [] = ok tt
  mutate_trace (line ∷ lines) =
      let rest = mutate_trace lines in if match_line line then raised type_error else rest
