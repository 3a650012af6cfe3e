-- ===== src/Logger.antt =====
-- utils/logger.go: levels, their names, and which messages a logger prints. A string is the list of
-- its code points.
pub mod Level
pub mod Decimal
pub mod File
mod Tests
use gts.Base.{
  ℕ, ◌+◌, ◌&&◌, Bool, true, false, Option, none, some, List, [], ◌∷◌, map, leb, ◌==◌, if◌then◌else◌,
}

-- The code points of the names.
abbrev pub debug_str : List ℕ
debug_str = 100 ∷ 101 ∷ 98 ∷ 117 ∷ 103 ∷ []

abbrev pub trace_str : List ℕ
trace_str = 116 ∷ 114 ∷ 97 ∷ 99 ∷ 101 ∷ []

abbrev pub info_str : List ℕ
info_str = 105 ∷ 110 ∷ 102 ∷ 111 ∷ []

abbrev pub warning_str : List ℕ
warning_str = 119 ∷ 97 ∷ 114 ∷ 110 ∷ 105 ∷ 110 ∷ 103 ∷ []

abbrev pub error_str : List ℕ
error_str = 101 ∷ 114 ∷ 114 ∷ 111 ∷ 114 ∷ []

abbrev pub fatal_str : List ℕ
fatal_str = 102 ∷ 97 ∷ 116 ∷ 97 ∷ 108 ∷ []

abbrev pub unknown_str : List ℕ
unknown_str = 117 ∷ 110 ∷ 107 ∷ 110 ∷ 111 ∷ 119 ∷ 110 ∷ []

-- `LogLevel` is a `uint16`; these are its named values.
abbrev pub unknown : ℕ
unknown = 0

abbrev pub debug : ℕ
debug = 1

abbrev pub trace : ℕ
trace = 2

abbrev pub info : ℕ
info = 3

abbrev pub warning : ℕ
warning = 4

abbrev pub error : ℕ
error = 5

abbrev pub fatal : ℕ
fatal = 6

-- `strings.ToLower` of a code point, as far as its result can be an ASCII letter: besides A to Z,
-- the dotted capital I and the Kelvin sign.
unfoldable pub lower : ℕ → ℕ
lower c =
    if leb 65 c && leb c 90 then c + 32 else if c == 304 then 105 else if c == 8490 then 107 else c

unfoldable pub to_lower : List ℕ → List ℕ
unfolding lower
to_lower s = map lower s

unfoldable pub eq_str : List ℕ → List ℕ → Bool
eq_str [] [] = true
eq_str (a ∷ s) (b ∷ t) = (a == b) && eq_str s t
eq_str _ _ = false

-- The `switch` on a string in lower case; `none` is the error, which comes with `UNKNOWN`.
unfoldable pub level_of : List ℕ → Option ℕ
unfolding eq_str
level_of s =
    if eq_str s debug_str
    then some debug
    else if eq_str s trace_str
    then some trace
    else if eq_str s info_str
    then some info
    else if eq_str s warning_str
    then some warning
    else if eq_str s error_str
    then some error
    else if eq_str s fatal_str
    then some fatal
    else none

unfoldable pub parse_log_level : List ℕ → Option ℕ
unfolding level_of to_lower
parse_log_level s = level_of (to_lower s)

unfoldable pub get_log_level_str : ℕ → List ℕ
get_log_level_str level =
    if level == debug
    then debug_str
    else if level == trace
    then trace_str
    else if level == info
    then info_str
    else if level == warning
    then warning_str
    else if level == error
    then error_str
    else if level == fatal
    then fatal_str
    else unknown_str

-- `NewLog`: the level of the logger; `none` is the panic.
unfoldable pub new_log : List ℕ → Option ℕ
new_log level_str = parse_log_level level_str

unfoldable pub enable : ℕ → ℕ → Bool
enable logger level = leb logger level

-- The methods from `Debug` to `Fatal`: the level and the message that are printed, or nothing.
unfoldable pub log_at : ℕ → ℕ → List ℕ → Option (List ℕ × List ℕ)
unfolding enable get_log_level_str
log_at level logger msg = if enable logger level then some (get_log_level_str level, msg) else none
