-- ===== src/Logger/File.antt =====
-- The log file of utils/logger.go: where it lies, how it is set, and what is written to it. The disk
-- is folders and files; what the system answers to a call is an argument.
pub mod Names
pub mod Prints
pub mod Said
pub mod Opened
use gts.Base.{
  ℕ, ◌&&◌, ◌||◌, Bool, true, false, not, Option, none, some, List, [], ◌∷◌, ◌++◌, take, length,
  if◌then◌else◌,
}
use gts.Logger.{eq_str, enable, get_log_level_str, new_log}
use gts.Logger.Decimal.{show, show_02}

-- A clean path: its elements, from the last to the first. `filepath.Join` of a path and a name
-- without a slash puts the name in front.
abbrev pub FilePath : Type 0
FilePath = List (List ℕ)

unfoldable pub eq_path : FilePath → FilePath → Bool
unfolding eq_str
eq_path [] [] = true
eq_path (a ∷ p) (b ∷ q) = eq_str a b && eq_path p q
eq_path _ _ = false

abbrev pub parent : FilePath → FilePath
parent [] = []
parent (name ∷ folder) = folder

-- The folders, and the bytes of each file that exists.
pub record Disk : Type 0 where
  pub is_folder : FilePath → Bool
  pub content : FilePath → Option (List ℕ)

-- The bytes of a file, none where it does not exist.
abbrev pub text_of : Disk → FilePath → List ℕ
text_of d p = elim (d.content p) [ none ↦ [] | some bytes ↦ bytes ]

-- The date of `time.Now`.
pub record Date : Type 0 where
  pub year : ℕ
  pub month : ℕ
  pub day : ℕ

-- `os.Stat` without an error.
unfoldable pub exists : Disk → FilePath → Bool
exists d p = d.is_folder p || elim (d.content p) [ none ↦ false | some _ ↦ true ]

-- `os.Mkdir`, which makes no parents: it fails without the folder above, or when the system says so.
unfoldable pub mkdir : Bool → FilePath → Disk → Disk
unfolding eq_path
mkdir allowed p d =
    if allowed && d.is_folder (parent p)
    then record d { is_folder = λ q. eq_path q p || d.is_folder q }
    else d

-- "%d-%02d" of the year and the month
unfoldable pub folder_name : Date → List ℕ
unfolding show show_02
folder_name t = show t.year ++ 45 ∷ show_02 t.month

-- "%d-%02d-%02d-%s" of the date and the name
unfoldable pub log_name : Date → List ℕ → List ℕ
unfolding show show_02
log_name t name = show t.year ++ 45 ∷ (show_02 t.month ++ 45 ∷ (show_02 t.day ++ 45 ∷ name))

-- The lines of `getFileName` on the standard error.
pub data Complaint : Type 0 where
  mkdir_failed chmod_failed : Complaint

-- What is said on the way to a folder that does not exist: where it could not be made, `Chmod` fails
-- too, and only there.
unfoldable pub complaints : Bool → FilePath → Disk → List Complaint
complaints allowed p d =
    if allowed && d.is_folder (parent p) then [] else mkdir_failed ∷ chmod_failed ∷ []

-- `getFileName`: the path, the disk with its folder where that could be made, and what is said. The
-- path is returned after a failure all the same.
unfoldable pub get_file_name :
    Bool → Date → FilePath → List ℕ → Disk → FilePath × Disk × List Complaint
unfolding folder_name log_name exists mkdir complaints
get_file_name allowed t base_path name d =
    let folder_path = folder_name t ∷ base_path in
    let there = exists d folder_path in
    (
      log_name t name ∷ folder_path,
      if there then d else mkdir allowed folder_path d,
      if there then [] else complaints allowed folder_path d,
    )

-- The variables `Log` and `LogFileName`, where `none` is the empty name, with the disk, the bytes on
-- the standard output and the lines on the standard error.
pub record Logging : Type 0 where
  pub log : ℕ
  pub log_file_name : Option FilePath
  pub disk : Disk
  pub stdout : List ℕ
  pub stderr : List Complaint

-- "log"
abbrev pub log_str : List ℕ
log_str = 108 ∷ 111 ∷ 103 ∷ []

unfoldable pub log_to : Bool → Date → FilePath → ℕ → Logging → Logging
unfolding get_file_name
log_to allowed t path level g =
    let (name, d, said) = get_file_name allowed t path log_str g.disk in
    record g { log = level; log_file_name = some name; disk = d; stderr = g.stderr ++ said }

-- `InitLogger` with its optional path; `none` is the panic of `NewLog`.
unfoldable pub init_logger : Bool → Date → List ℕ → Option FilePath → Logging → Option Logging
unfolding log_to
init_logger allowed t level path g = elim (new_log level) [
  | none ↦ none
  | some l ↦ some (elim path [
    | none ↦ record g { log = l; log_file_name = none }
    | some p ↦ log_to allowed t p l g
  ])
]

-- `InitLoggerDefault`, with the settings `LogLevel` and `LogPath`.
unfoldable pub init_logger_default : Bool → Date → List ℕ → FilePath → Logging → Option Logging
unfolding log_to
init_logger_default allowed t level log_path g = elim (new_log level) [
  | none ↦ none
  | some l ↦ some (log_to allowed t log_path l g)
]

-- A call of `Debug` to `Fatal`: its level and message, the time as text, what `getInfo` finds, and the
-- text of the error of `OpenFile`, should there be one.
pub record Entry : Type 0 where
  pub level : ℕ
  pub msg : List ℕ
  pub now : List ℕ
  pub func_name : List ℕ
  pub file_path : List ℕ
  pub line_no : ℕ
  pub open_error : List ℕ

-- "[%s] [%s] [%s:%s:%d] %s"
unfoldable pub line_of : Entry → List ℕ
unfolding get_log_level_str show
line_of e =
    91
    ∷ (e.now
        ++ 93
          ∷ 32
          ∷ 91
          ∷ (get_log_level_str e.level
              ++ 93
                ∷ 32
                ∷ 91
                ∷ (e.file_path ++ 58 ∷ (e.func_name ++ 58 ∷ (show e.line_no ++ 93 ∷ 32 ∷ e.msg)))))

-- `Println` and `Fprintln` end the line.
unfoldable pub bytes_of : Entry → List ℕ
unfolding line_of
bytes_of e = line_of e ++ 10 ∷ []

-- What the system answers to `OpenFile` and to the write behind it: no file, a write that fails after
-- so many bytes with an error of the given text, or a write of the whole.
pub data Answer : Type 0 where
  refused : Answer
  cut : ℕ → List ℕ → Answer
  written : Answer

-- The part of the bytes that arrives, where the file was opened.
unfoldable pub arrives : Answer → List ℕ → Option (List ℕ)
arrives refused bytes = none
arrives (cut k error) bytes = some (take k bytes)
arrives written bytes = some bytes

-- A file is opened only in a folder that exists, and only where no folder has its name; `O_CREATE`
-- makes one that does not exist, and `O_APPEND` writes behind what is there.
unfoldable pub append_bytes : FilePath → Option (List ℕ) → Disk → Disk
unfolding eq_path
append_bytes p none d = d
append_bytes p (some more) d =
    if d.is_folder (parent p) && not (d.is_folder p)
    then record d { content = λ q. if eq_path q p then some (text_of d p ++ more) else d.content q }
    else d

-- `os.OpenFile` and the write of `fmt.Fprintln`.
unfoldable pub append_to : Answer → FilePath → List ℕ → Disk → Disk
unfolding arrives append_bytes
append_to answer p bytes d = append_bytes p (arrives answer bytes) d

-- "open log file failed, err:"
abbrev pub open_failed : List ℕ
open_failed =
    111 ∷ 112 ∷ 101 ∷ 110 ∷ 32 ∷ 108 ∷ 111 ∷ 103 ∷ 32 ∷ 102 ∷ 105 ∷ 108 ∷ 101 ∷ 32 ∷ 102 ∷ 97 ∷ 105
    ∷ 108 ∷ 101 ∷ 100 ∷ 44 ∷ 32 ∷ 101 ∷ 114 ∷ 114 ∷ 58 ∷ []

-- " write log file failed, err:"
abbrev pub write_failed : List ℕ
write_failed =
    32 ∷ 119 ∷ 114 ∷ 105 ∷ 116 ∷ 101 ∷ 32 ∷ 108 ∷ 111 ∷ 103 ∷ 32 ∷ 102 ∷ 105 ∷ 108 ∷ 101 ∷ 32 ∷ 102
    ∷ 97 ∷ 105 ∷ 108 ∷ 101 ∷ 100 ∷ 44 ∷ 32 ∷ 101 ∷ 114 ∷ 114 ∷ 58 ∷ []

-- The line for a file that could not be opened, and the one for a write that failed behind `k` bytes.
unfoldable pub open_line : List ℕ → List ℕ
open_line error = open_failed ++ 32 ∷ (error ++ 10 ∷ [])

unfoldable pub write_line : ℕ → List ℕ → List ℕ
unfolding show
write_line k error = show k ++ (write_failed ++ 32 ∷ (error ++ 10 ∷ []))

-- What is printed of the write of the bytes to an open file.
unfoldable pub write_says : Answer → List ℕ → List ℕ → List ℕ
unfolding open_line write_line
write_says refused bytes error = open_line error
write_says (cut k write_error) bytes error = write_line (length (take k bytes)) write_error
write_says written bytes error = []

-- What is printed of an attempt to open the file and write to it.
unfoldable pub file_says : Answer → FilePath → Entry → Disk → List ℕ
unfolding write_says bytes_of open_line
file_says answer p e d =
    if d.is_folder (parent p) && not (d.is_folder p)
    then write_says answer (bytes_of e) e.open_error
    else open_line e.open_error

-- `printLog`: the line, then what becomes of the file, which is tried only where it has a name.
unfoldable pub print_log : Answer → Entry → Logging → Logging
unfolding bytes_of append_to file_says
print_log answer e g = record g {
  stdout =
      (g.stdout ++ bytes_of e)
      ++ elim g.log_file_name [ none ↦ [] | some p ↦ file_says answer p e g.disk ];
  disk = elim g.log_file_name [ none ↦ g.disk | some p ↦ append_to answer p (bytes_of e) g.disk ];
}

-- The methods `Debug` to `Fatal` of `Log`, whose levels are those of the entries.
unfoldable pub call : Answer → Entry → Logging → Logging
unfolding enable print_log
call answer e g = if enable g.log e.level then print_log answer e g else g

unfoldable pub calls : List (Answer × Entry) → Logging → Logging
unfolding call
calls [] g = g
calls ((answer, e) ∷ es) g = calls es (call answer e g)
