-- ===== src/Logger/File/Prints.antt =====
-- What calls of the methods of a logger of utils/logger.go leave in the log file.
use mathlib.Core.List.{append_assoc, append-nil}
use gts.Base.{
  ℕ, ◌≡◌, refl, sym, ap, subst, ◌∙◌, Bool, true, false, not, ◌&&◌, Option, none, some, List, [],
  ◌∷◌, ◌++◌, if◌then◌else◌, leb, take, arith,
}
use gts.Logger.{eq_str, enable}
use gts.Logger.File.{
  FilePath, eq_path, parent, Disk, text_of, Logging, Entry, bytes_of, Answer, refused, cut, written,
  arrives, append_bytes, append_to, print_log, call, calls,
}

-- The part of a line that comes into the file.
abbrev pub part_of : Answer → List ℕ → List ℕ
part_of refused bytes = []
part_of (cut k error) bytes = take k bytes
part_of written bytes = bytes

-- What comes into the file of the entries that are not below the level, in their order.
abbrev pub filed : ℕ → List (Answer × Entry) → List ℕ
filed log [] = []
filed log ((answer, e) ∷ es) =
    let rest = filed log es in if leb log e.level then part_of answer (bytes_of e) ++ rest else rest

eq_str_refl : (s : List ℕ) → eq_str s s ≡ true
unfolding eq_str
eq_str_refl [] = refl
eq_str_refl (c ∷ s) = ground (arith, eq_str_refl s)

pub eq_path_refl : (p : FilePath) → eq_path p p ≡ true
unfolding eq_path
eq_path_refl [] = refl
eq_path_refl (name ∷ p) = ground (arith, eq_str_refl name, eq_path_refl p)

-- A file that can be opened: its folder exists, and it is not a folder itself.
pub record CanOpen (d : Disk) (p : FilePath) : Type 0 where
  pub in_folder : d.is_folder (parent p) ≡ true
  pub no_folder : d.is_folder p ≡ false

append_bytes-text :
    (p : FilePath) (more : List ℕ) (d : Disk)
    → CanOpen d p
    → text_of (append_bytes p (some more) d) p ≡ text_of d p ++ more
unfolding append_bytes
append_bytes-text p more d c =
    rw (c.in_folder, c.no_folder)
      (ap
        (λ b. elim (if b then some (text_of d p ++ more) else d.content p) as (λ _. List ℕ) [
          | none ↦ []
          | some bytes ↦ bytes
        ])
        (eq_path_refl p))

append_to-text :
    (answer : Answer) (p : FilePath) (bytes : List ℕ) (d : Disk)
    → CanOpen d p
    → text_of (append_to answer p bytes d) p ≡ text_of d p ++ part_of answer bytes
unfolding append_to arrives
append_to-text refused p bytes d c = unfold append_bytes in sym (append-nil (text_of d p))
append_to-text (cut k error) p bytes d c = append_bytes-text p (take k bytes) d c
append_to-text written p bytes d c = append_bytes-text p bytes d c

if-is_folder :
    (b : Bool) (d v : Disk)
    → v.is_folder ≡ d.is_folder
    → (if b then v else d).is_folder ≡ d.is_folder
if-is_folder true d v h = h
if-is_folder false d v h = refl

append_bytes-is_folder :
    (p : FilePath) (more : Option (List ℕ)) (d : Disk)
    → (append_bytes p more d).is_folder ≡ d.is_folder
unfolding append_bytes
append_bytes-is_folder p none d = refl
append_bytes-is_folder p (some more) d =
    if-is_folder (d.is_folder (parent p) && not (d.is_folder p)) d
      (record d { content = λ q. if eq_path q p then some (text_of d p ++ more) else d.content q })
      refl

-- A line that is added to the file leaves it such that it can be opened.
pub append_to-CanOpen :
    (answer : Answer) (p : FilePath) (bytes : List ℕ) (d : Disk)
    → CanOpen d p
    → CanOpen (append_to answer p bytes d) p
unfolding append_to
append_to-CanOpen answer p bytes d c =
    let same = append_bytes-is_folder p (arrives answer bytes) d in
    record {
      in_folder = ap (λ f. f (parent p)) same ∙ c.in_folder;
      no_folder = ap (λ f. f p) same ∙ c.no_folder;
    }

pub print_log-disk :
    (answer : Answer) (e : Entry) (g : Logging) (p : FilePath)
    → g.log_file_name ≡ some p
    → (print_log answer e g).disk ≡ append_to answer p (bytes_of e) g.disk
unfolding print_log
print_log-disk answer e g p h =
    ap
      (λ o. elim o as (λ _. Disk) [
        | none ↦ g.disk
        | some q ↦ append_to answer q (bytes_of e) g.disk
      ])
      h

-- From a log file that can be opened, a list of calls appends to the file what the system took of
-- each line of a message that is not below the level, in their order.
pub calls-filed :
    (es : List (Answer × Entry)) (g : Logging) (p : FilePath)
    → g.log_file_name ≡ some p
    → CanOpen g.disk p
    → text_of (calls es g).disk p ≡ text_of g.disk p ++ filed g.log es
unfolding calls call enable
calls-filed [] g p h c = sym (append-nil (text_of g.disk p))
calls-filed ((answer, e) ∷ es) g p h c =
    elim (leb g.log e.level)
      as (λ b.
        text_of (calls es (if b then print_log answer e g else g)).disk p
        ≡ text_of g.disk p
          ++ (if b then part_of answer (bytes_of e) ++ filed g.log es else filed g.log es)) [
            | false ↦ calls-filed es g p h c
            | true ↦
                let disk = print_log-disk answer e g p h in
                let can =
                  subst (λ d. CanOpen d p) (sym disk)
                    (append_to-CanOpen answer p (bytes_of e) g.disk c) in
                let text =
                  ap (λ d. text_of d p) disk ∙ append_to-text answer p (bytes_of e) g.disk c in
                unfold print_log in
                calls-filed es (print_log answer e g) p h can
                ∙ ap (λ bytes. bytes ++ filed g.log es) text
                ∙ append_assoc (text_of g.disk p) (part_of answer (bytes_of e)) (filed g.log es)
          ]

pub append_to-lost :
    (answer : Answer) (p : FilePath) (bytes : List ℕ) (d : Disk)
    → d.is_folder (parent p) ≡ false
    → append_to answer p bytes d ≡ d
unfolding append_to arrives append_bytes
append_to-lost refused p bytes d h = refl
append_to-lost (cut k error) p bytes d h = rw h refl
append_to-lost written p bytes d h = rw h refl

-- Where the folder of the log file does not exist, no call changes the disk.
pub calls-lost :
    (es : List (Answer × Entry)) (g : Logging) (p : FilePath)
    → g.log_file_name ≡ some p
    → g.disk.is_folder (parent p) ≡ false
    → (calls es g).disk ≡ g.disk
unfolding calls call enable
calls-lost [] g p h f = refl
calls-lost ((answer, e) ∷ es) g p h f =
    elim (leb g.log e.level)
      as (λ b. (calls es (if b then print_log answer e g else g)).disk ≡ g.disk) [
        | false ↦ calls-lost es g p h f
        | true ↦
            let disk =
              print_log-disk answer e g p h ∙ append_to-lost answer p (bytes_of e) g.disk f in
            unfold print_log in
            calls-lost es (print_log answer e g) p h (ap (λ d. d.is_folder (parent p)) disk ∙ f)
            ∙ disk
      ]
