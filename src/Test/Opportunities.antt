-- ===== src/Test/Opportunities.antt =====
-- src/identify_opportunities.py: the loop that turns opportunities into sections of config.ini and
-- trace snippets. The threads before it are in Producer and Mutator.
pub mod Readback
use crash_simulator.Base.{
  ℕ, zero, suc, Bool, true, false, Option, none, some, List, [], ◌∷◌, ◌++◌, ℤ, get_elem?, length,
}
use crash_simulator.Py.{
  Text, text, show_ℕ, show_int, word_of, Result, ok, raised, index_error, then_try, Py, ◌>>=◌, ◌>>◌,
  self, put, lift, return,
}
use crash_simulator.TraceManager.{Package}
use crash_simulator.Mutator.Identify.{Opportunity}
use crash_simulator.Test.Ini.{Ini, add_section, set_all}
use crash_simulator.Test.Snip.{event_number, write_lines, or_index_error}

-- `ini` is the object `config`, `saved` the file config.ini, and `snips` the snippet files, by name.
pub record Setup : Type 0 where
  pub ini : Ini
  pub saved : Ini
  pub snips : List (Text × List Text)

-- "request_handling_process" + str(n)
unfoldable pub section_name : ℕ → Text
unfolding text
section_name n = text "request_handling_process" ++ show_ℕ n

-- test_dir + "trace_snip" + str(n) + ".strace"
unfoldable pub snip_name : Text → ℕ → Text
unfolding text
snip_name test_dir n = test_dir ++ text "trace_snip" ++ show_ℕ n ++ text ".strace"

-- The options of a section at first, where None is written as a text.
unfoldable pub first_options : Text → List (Text × Text)
unfolding text
first_options test_dir =
    (text "event", text "None")
    ∷ (text "pid", text "None")
    ∷ (text "trace_file", test_dir ++ text "strace_out.strace")
    ∷ (text "trace_start", text "0")
    ∷ (text "trace_end", text "0")
    ∷ []

-- And those that are set behind the snippet.
unfoldable pub last_options : Text → ℤ → Text → ℕ → List (Text × Text)
unfolding text
last_options snip user_event pid lines_written =
    (text "trace_file", snip)
    ∷ (text "event", show_int user_event)
    ∷ (text "pid", pid)
    ∷ (text "trace_end", show_ℕ lines_written)
    ∷ []

abbrev pub change_ini : (Ini → Result Ini) → Py Setup (Unit {0})
change_ini f = do s ← self; ini ← lift (f s.ini); put (record s { ini = ini })

abbrev pub add_snip : Text → List Text → Py Setup (Unit {0})
add_snip name lines = do s ← self; put (record s { snips = s.snips ++ (name, lines) ∷ [] })

abbrev pub save : Py Setup (Unit {0})
save = do s ← self; put (record s { saved = s.ini })

module _ (test_dir pid : Text) (sniplen : ℕ) where
  -- A round for an opportunity of the queue.
  unfoldable pub add_opportunity : ℕ → Opportunity → Py Setup (Unit {0})
  unfolding section_name snip_name first_options last_options set_all write_lines event_number text
  add_opportunity n o = do
    change_ini (add_section (section_name n))
    change_ini (
        set_all (section_name n)
          (first_options test_dir ++ (text "mutator", o.mutator_name ++ text "()") ∷ []))
    user_event ← lift (event_number o.found.event)
    add_snip (snip_name test_dir n) (write_lines sniplen 0 1 o.found.trace).0
    change_ini (
        set_all (section_name n) (
          last_options (snip_name test_dir n) user_event pid
            (write_lines sniplen 0 1 o.found.trace).1))
    save

  -- The queue, from a number of sections on.
  unfoldable pub add_opportunities : ℕ → List Opportunity → Py Setup (Unit {0})
  unfolding add_opportunity
  add_opportunities n [] = return tt
  add_opportunities n (o ∷ os) = do add_opportunity n o; add_opportunities (suc n) os

-- trace_lines[0].split()[0]
unfoldable pub recorded_pid : List Text → Result Text
recorded_pid trace_lines =
    then_try (or_index_error (get_elem? trace_lines 0)) (λ line. or_index_error (word_of line))

-- identify_opportunities, for a test that exists: the pid, and then the queue.
unfoldable pub identify_opportunities :
    Text → ℕ → List Text → List Opportunity → Py Setup (Unit {0})
unfolding recorded_pid add_opportunities
identify_opportunities test_dir sniplen trace_lines queue = do
  pid ← lift (recorded_pid trace_lines)
  add_opportunities test_dir pid sniplen 0 queue
