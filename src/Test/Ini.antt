-- ===== src/Test/Ini.antt =====
-- What src/rrtest.py and src/identify_opportunities.py use of ConfigParser: sections with options, in
-- order. A value is the text that `write` makes of it with `str`.
pub mod Laws
use crash_simulator.Base.{
  Bool, true, false, Option, none, some, List, [], ◌∷◌, ◌++◌, map, if◌then◌else◌,
}
use crash_simulator.Py.{
  Text, text, same, Result, ok, raised, duplicate_section, no_section, no_option, then_try,
}
use crash_simulator.Py.ConfigParser.{Section, stored}

pub record Part : Type 0 where
  pub name : Text
  pub options : List (Text × Text)

abbrev pub Ini : Type 0
Ini = List Part

unfoldable pub has_section : Text → Ini → Bool
has_section name [] = false
has_section name (p ∷ ini) = if same name p.name then true else has_section name ini

unfoldable pub add_section : Text → Ini → Result Ini
unfolding has_section
add_section name ini =
    if has_section name ini
    then raised duplicate_section
    else ok (ini ++ record { name = name; options = [] } ∷ [])

unfoldable pub put_option : Text → Text → List (Text × Text) → List (Text × Text)
put_option key value [] = (key, value) ∷ []
put_option key value ((k, v) ∷ l) =
    let rest = put_option key value l in if same key k then (k, value) ∷ l else (k, v) ∷ rest

-- config.set(name, key, value)
unfoldable pub set : Text → Text × Text → Ini → Result Ini
unfolding put_option
set name o [] = raised no_section
set name o (p ∷ ini) =
    let rest = set name o ini in
    if same name p.name
    then ok (record p { options = put_option o.0 o.1 p.options } ∷ ini)
    else then_try rest (λ l. ok (p ∷ l))

-- A run of calls of config.set
unfoldable pub set_all : Text → List (Text × Text) → Ini → Result Ini
unfolding set
set_all name [] ini = ok ini
set_all name (o ∷ os) ini = then_try (set name o ini) (set_all name os)

unfoldable pub option : Text → List (Text × Text) → Option Text
option key [] = none
option key ((k, v) ∷ l) = let rest = option key l in if same key k then some v else rest

unfoldable pub section : Text → Ini → Option Part
section name [] = none
section name (p ∷ ini) = let rest = section name ini in if same name p.name then some p else rest

-- config.read of what was written
unfoldable pub read : Ini → Ini
unfolding stored
read [] = []
read (p ∷ ini) = record p { options = map (λ o. (o.0, stored o.1)) p.options } ∷ read ini

-- A section as rreplay reads it, where the parser keeps its name among the options.
unfoldable pub as_section : Part → Section
unfolding option stored text
as_section p key = option key ((text "__name__", p.name) ∷ map (λ o. (o.0, stored o.1)) p.options)

abbrev or_no_option : Option Text → Result Text
or_no_option none = raised no_option
or_no_option (some v) = ok v

abbrev get_in : Text → Option Part → Result Text
get_in key none = raised no_section
get_in key (some p) = or_no_option (option key p.options)

-- config.get(name, key), for a value with no %( in it
unfoldable pub get : Text → Text → Ini → Result Text
unfolding section option
get name key ini = get_in key (section name ini)
