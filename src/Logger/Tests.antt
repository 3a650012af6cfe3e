-- ===== src/Logger/Tests.antt =====
-- A logger of utils/logger.go made from a name in mixed case.
use gts.Base.{ℕ, ◌≡◌, refl, Bool, true, false, none, some, List, [], ◌∷◌, ◌++◌}
use gts.Logger.{info, debug, warning, new_log, parse_log_level, level_of, to_lower, lower, eq_str}
use gts.Logger.File.{
  Disk, Date, Logging, Entry, Answer, refused, cut, written, text_of, line_of, log_name, log_str,
  init_logger, calls,
}
use gts.Logger.File.Opened.{HasPlace, file_of, init_logger-calls}
use gts.Logger.File.Prints.{filed}
use gts.Logger.File.Said.{printed}

-- "Info"
abbrev mixed : List ℕ
mixed = 73 ∷ 110 ∷ 102 ∷ 111 ∷ []

mixed-new_log : new_log mixed ≡ some info
unfolding new_log parse_log_level level_of to_lower lower eq_str
mixed-new_log = refl

abbrev nov : Date
nov = record { year = 2023; month = 11; day = 7 }

-- "2023-11-07-log"
nov-log_name :
    log_name nov log_str
    ≡ 50 ∷ 48 ∷ 50 ∷ 51 ∷ 45 ∷ 49 ∷ 49 ∷ 45 ∷ 48 ∷ 55 ∷ 45 ∷ 108 ∷ 111 ∷ 103 ∷ []
unfolding log_name
nov-log_name = refl

abbrev root : Disk
root = record {
  is_folder = λ p. elim p as (λ _. Bool) [ [] ↦ true | _ ∷ _ ↦ false ];
  content = λ _. none;
}

abbrev fresh : Logging
fresh = record { log = 0; log_file_name = none; disk = root; stdout = []; stderr = [] }

abbrev entry : ℕ → Entry
entry level = record {
  level = level;
  msg = 104 ∷ 105 ∷ [];
  now = [];
  func_name = 102 ∷ [];
  file_path = 103 ∷ [];
  line_no = 12;
  open_error = 120 ∷ [];
}

-- "[] [info] [g:f:12] hi"
info-line_of :
    line_of (entry info)
    ≡ 91 ∷ 93 ∷ 32 ∷ 91 ∷ 105 ∷ 110 ∷ 102 ∷ 111 ∷ 93 ∷ 32 ∷ 91 ∷ 103 ∷ 58 ∷ 102 ∷ 58 ∷ 49 ∷ 50 ∷ 93
      ∷ 32 ∷ 104 ∷ 105 ∷ []
unfolding line_of
info-line_of = refl

abbrev entries : List (Answer × Entry)
entries =
    (written, entry debug)
    ∷ (cut 3 (33 ∷ []), entry info)
    ∷ (refused, entry warning)
    ∷ (written, entry warning)
    ∷ []

nov-HasPlace : HasPlace true nov [] root
nov-HasPlace = record { in_base = refl; may_make = refl; no_file = refl; no_folder = refl }

init_logger-calls_example :
    (after : Logging) × (init_logger true nov mixed (some []) fresh ≡ some after)
    × ((calls entries after).stdout ≡ [] ++ printed info entries)
    × (text_of (calls entries after).disk (file_of nov []) ≡ [] ++ filed info entries)
    × ((calls entries after).stderr ≡ [])
init_logger-calls_example =
    init_logger-calls true nov mixed info [] fresh entries mixed-new_log nov-HasPlace
