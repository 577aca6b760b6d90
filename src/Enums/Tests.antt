-- ===== src/Enums/Tests.antt =====
-- The enumerations at concrete values.
use pwshpy.Base.{◌≡◌, refl, none}
use pwshpy.Text.{codes, text_eq}
use pwshpy.Enums.ProcessStatus.{process_status_of}

no_such_status : process_status_of (codes "Running") ≡ none
unfolding process_status_of text_eq
no_such_status = refl
