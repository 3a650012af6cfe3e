-- ===== src/Logger/File/Opened.antt =====
-- A logger of utils/logger.go from `InitLogger` to the lines in its file.
use mathlib.Core.List.{append-nil}
use gts.Base.{
  ℕ, ◌≡◌, refl, ap, ◌∙◌, Bool, true, false, ◌&&◌, ◌||◌, Option, none, some, List, [], ◌∷◌, ◌++◌,
  if◌then◌else◌, arith, inl, inr, Bool-cases,
}
use gts.Logger.{new_log}
use gts.Logger.File.{
  FilePath, eq_path, parent, Disk, text_of, exists, mkdir, Date, folder_name, log_name, log_str,
  get_file_name, complaints, mkdir_failed, chmod_failed, Logging, log_to, init_logger, Entry,
  Answer, calls,
}
use gts.Logger.File.Prints.{eq_path_refl, CanOpen, calls-filed, calls-lost, filed}
use gts.Logger.File.Said.{calls-printed, calls-printed_lost, calls-stderr, printed, printed_lost}

-- The folder and the file of a date below a path.
abbrev pub folder_of : Date → FilePath → FilePath
folder_of t path = folder_name t ∷ path

abbrev pub file_of : Date → FilePath → FilePath
file_of t path = log_name t log_str ∷ folder_of t path

-- A path differs from those that are one element longer.
eq_path_longer : (name : List ℕ) (p : FilePath) → eq_path (name ∷ p) p ≡ false
unfolding eq_path
eq_path_longer name [] = refl
eq_path_longer name (other ∷ p) = ground (arith, eq_path_longer other p)

-- Nothing is in the way of the log file, and its folder is there or can be made.
pub record HasPlace (allowed : Bool) (t : Date) (path : FilePath) (d : Disk) : Type 0 where
  pub in_base : d.is_folder path ≡ true
  pub may_make : allowed ≡ true
  pub no_file : d.content (folder_of t path) ≡ none
  pub no_folder : d.is_folder (file_of t path) ≡ false

if-content :
    (b : Bool) (d v : Disk) → v.content ≡ d.content → (if b then v else d).content ≡ d.content
if-content true d v h = h
if-content false d v h = refl

log_to-CanOpen :
    (allowed : Bool) (t : Date) (path : FilePath) (level : ℕ) (g : Logging)
    → HasPlace allowed t path g.disk
    → CanOpen (log_to allowed t path level g).disk (file_of t path)
unfolding log_to get_file_name exists mkdir
log_to-CanOpen allowed t path level g h =
    let d = g.disk in
    let folder = folder_of t path in
    elim (Bool-cases (d.is_folder folder)) [
      | inl f ↦ rw f (record { in_folder = f; no_folder = h.no_folder })
      | inr f ↦
          rw (f, h.no_file, h.may_make, h.in_base)
            (record {
              in_folder = ap (λ b. b || d.is_folder folder) (eq_path_refl folder);
              no_folder =
                  ap (λ b. b || d.is_folder (file_of t path))
                    (eq_path_longer (log_name t log_str) folder)
                  ∙ h.no_folder;
            })
    ]

mkdir-content : (allowed : Bool) (p : FilePath) (d : Disk) → (mkdir allowed p d).content ≡ d.content
unfolding mkdir
mkdir-content allowed p d =
    if-content (allowed && d.is_folder (parent p)) d
      (record d { is_folder = λ q. eq_path q p || d.is_folder q }) refl

log_to-content :
    (allowed : Bool) (t : Date) (path : FilePath) (level : ℕ) (g : Logging)
    → (log_to allowed t path level g).disk.content ≡ g.disk.content
unfolding log_to get_file_name
log_to-content allowed t path level g =
    elim (exists g.disk (folder_of t path))
      as (λ b.
        (if b then g.disk else mkdir allowed (folder_of t path) g.disk).content ≡ g.disk.content) [
          | true ↦ refl
          | false ↦ mkdir-content allowed (folder_of t path) g.disk
        ]

mkdir-fails :
    (allowed : Bool) (p : FilePath) (d : Disk)
    → d.is_folder (parent p) ≡ false
    → mkdir allowed p d ≡ d
unfolding mkdir
mkdir-fails true p d h = rw h refl
mkdir-fails false p d h = refl

log_to-disk :
    (allowed : Bool) (t : Date) (path : FilePath) (level : ℕ) (g : Logging)
    → g.disk.is_folder path ≡ false
    → (log_to allowed t path level g).disk ≡ g.disk
unfolding log_to get_file_name
log_to-disk allowed t path level g h =
    elim (exists g.disk (folder_of t path))
      as (λ b. (if b then g.disk else mkdir allowed (folder_of t path) g.disk) ≡ g.disk) [
        | true ↦ refl
        | false ↦ mkdir-fails allowed (folder_of t path) g.disk h
      ]

log_to-stderr :
    (allowed : Bool) (t : Date) (path : FilePath) (level : ℕ) (g : Logging)
    → HasPlace allowed t path g.disk
    → (log_to allowed t path level g).stderr ≡ g.stderr
unfolding log_to get_file_name complaints
log_to-stderr allowed t path level g h =
    rw (h.may_make, h.in_base)
      (elim (exists g.disk (folder_of t path))
        as (λ b. g.stderr ++ (if b then [] else []) ≡ g.stderr) [
          | true ↦ append-nil g.stderr
          | false ↦ append-nil g.stderr
        ])

not_both : (b : Bool) → (b && false) ≡ false
not_both true = refl
not_both false = refl

log_to-complains :
    (allowed : Bool) (t : Date) (path : FilePath) (level : ℕ) (g : Logging)
    → g.disk.is_folder path ≡ false
    → exists g.disk (folder_of t path) ≡ false
    → (log_to allowed t path level g).stderr ≡ g.stderr ++ mkdir_failed ∷ chmod_failed ∷ []
unfolding log_to get_file_name complaints
log_to-complains allowed t path level g h e = rw (e, h, not_both allowed) refl

made :
    (allowed : Bool) (t : Date) (name : List ℕ) (level : ℕ) (path : FilePath) (g : Logging)
    → new_log name ≡ some level
    → init_logger allowed t name (some path) g ≡ some (log_to allowed t path level g)
unfolding init_logger
made allowed t name level path g h =
    ap
      (λ o. elim o as (λ _. Option Logging) [
        | none ↦ none
        | some l ↦ some (log_to allowed t path l g)
      ])
      h

-- A logger that is made for a path with a place for its file, from a name that is a level, appends
-- every message that is not below its level to the file of the day and to the standard output, in
-- their order; the file gets of each what the system takes, behind all that it held, and the output
-- the failure to open the file or to write, where there is one. Nothing is said on the standard error.
pub init_logger-calls :
    (allowed : Bool) (t : Date) (name : List ℕ) (level : ℕ) (path : FilePath) (g : Logging)
    (es : List (Answer × Entry))
    → new_log name ≡ some level
    → HasPlace allowed t path g.disk
    → (after : Logging) × (init_logger allowed t name (some path) g ≡ some after)
      × ((calls es after).stdout ≡ g.stdout ++ printed level es)
      × (text_of (calls es after).disk (file_of t path)
          ≡ text_of g.disk (file_of t path) ++ filed level es)
      × ((calls es after).stderr ≡ g.stderr)
unfolding log_to
init_logger-calls allowed t name level path g es h place =
    let after = log_to allowed t path level g in
    let can = log_to-CanOpen allowed t path level g place in
    let file = calls-filed es after (file_of t path) refl can in
    let same =
      ap (λ content. elim (content (file_of t path)) as (λ _. List ℕ) [ none ↦ [] | some x ↦ x ])
        (log_to-content allowed t path level g) in
    (
      after,
      made allowed t name level path g h,
      calls-printed es after (file_of t path) refl can,
      file ∙ ap (λ bytes. bytes ++ filed level es) same,
      calls-stderr es after ∙ log_to-stderr allowed t path level g place,
    )

-- Below a path that does not exist, where the folder of the month does not exist either, `Mkdir` fails,
-- which is said on the standard error, and the logger is made all the same: whatever is logged, it
-- never changes the disk, and prints the failure to open the file behind every line.
pub init_logger-lost :
    (allowed : Bool) (t : Date) (name : List ℕ) (level : ℕ) (path : FilePath) (g : Logging)
    (es : List (Answer × Entry))
    → new_log name ≡ some level
    → g.disk.is_folder path ≡ false
    → g.disk.is_folder (folder_of t path) ≡ false
    → exists g.disk (folder_of t path) ≡ false
    → (after : Logging) × (init_logger allowed t name (some path) g ≡ some after)
      × ((calls es after).stdout ≡ g.stdout ++ printed_lost level es)
      × ((calls es after).disk ≡ g.disk)
      × ((calls es after).stderr ≡ g.stderr ++ mkdir_failed ∷ chmod_failed ∷ [])
unfolding log_to
init_logger-lost allowed t name level path g es h base folder missing =
    let after = log_to allowed t path level g in
    let same = log_to-disk allowed t path level g base in
    let lost = ap (λ d. d.is_folder (folder_of t path)) same ∙ folder in
    (
      after,
      made allowed t name level path g h,
      calls-printed_lost es after (file_of t path) refl lost,
      calls-lost es after (file_of t path) refl lost ∙ same,
      calls-stderr es after ∙ log_to-complains allowed t path level g base missing,
    )
