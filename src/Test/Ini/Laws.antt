-- ===== src/Test/Ini/Laws.antt =====
-- The section that was added last, in the files that src/identify_opportunities.py writes.
use crash_simulator.Base.{◌≡◌, refl, false, List, [], ◌∷◌, ◌++◌, All}
use crash_simulator.Py.{Text, same, same_iff, ok}
use crash_simulator.Test.Ini.{Ini, has_section, add_section, put_option, set, set_all}

-- No section has the name.
abbrev pub Lacks : Text → Ini → Type 0
Lacks name ini = All (λ p. same name p.name ≡ false) ini

pub add_section-new :
    (name : Text) (ini : Ini)
    → Lacks name ini
    → add_section name ini ≡ ok (ini ++ record { name = name; options = [] } ∷ [])
unfolding add_section
add_section-new name ini a = rw (no_section_yet name ini a) refl
  where
    no_section_yet : (n : Text) (i : Ini) → Lacks n i → has_section n i ≡ false
    no_section_yet n [] b = unfold has_section in refl
    no_section_yet n (p ∷ i) b = unfold has_section in rw b.0 (no_section_yet n i b.1)

unfoldable pub put_options : List (Text × Text) → List (Text × Text) → List (Text × Text)
put_options [] l = l
put_options (o ∷ os) l = put_options os (put_option o.0 o.1 l)

set-last :
    (name : Text) (o : Text × Text) (l : List (Text × Text)) (ini : Ini)
    → Lacks name ini
    → set name o (ini ++ record { name = name; options = l } ∷ [])
      ≡ ok (ini ++ record { name = name; options = put_option o.0 o.1 l } ∷ [])
unfolding set
set-last name o l [] a = rw ((same_iff name name).1 refl) refl
set-last name o l (p ∷ ini) a = rw (a.0, set-last name o l ini a.1) refl

pub set_all-last :
    (name : Text) (os l : List (Text × Text)) (ini : Ini)
    → Lacks name ini
    → set_all name os (ini ++ record { name = name; options = l } ∷ [])
      ≡ ok (ini ++ record { name = name; options = put_options os l } ∷ [])
unfolding set_all put_options
set_all-last name [] l ini a = refl
set_all-last name (o ∷ os) l ini a =
    rw (set-last name o l ini a) (set_all-last name os (put_option o.0 o.1 l) ini a)
