-- ===== src/Logger/File/Said.antt =====
-- What calls of the methods of a logger of utils/logger.go print.
use mathlib.Core.List.{append_assoc, append-nil}
use gts.Base.{
  ℕ, ◌≡◌, refl, sym, ap, subst, ◌∙◌, true, false, none, some, List, [], ◌∷◌, ◌++◌, if◌then◌else◌,
  leb, take, length,
}
use gts.Logger.{enable}
use gts.Logger.Decimal.{show}
use gts.Logger.File.{
  FilePath, parent, Disk, Logging, Entry, bytes_of, Answer, refused, cut, written, open_failed,
  write_failed, open_line, write_line, write_says, file_says, print_log, call, calls,
}
use gts.Logger.File.Prints.{CanOpen, append_to-CanOpen, print_log-disk, append_to-lost}

-- The line about a file that can be opened and a write that fails: " write log file failed, err:"
-- behind the number of bytes that were written, or, where the system refuses the file all the same,
-- "open log file failed, err:", with the text of the error.
abbrev pub said : Answer → Entry → List ℕ
said refused e = open_failed ++ 32 ∷ (e.open_error ++ 10 ∷ [])
said (cut k error) e =
    show (length (take k (bytes_of e))) ++ (write_failed ++ 32 ∷ (error ++ 10 ∷ []))
said written e = []

-- The lines of the entries that are not below the level, in their order, each with what is said of the
-- file, and what comes of them into the file.
abbrev pub printed : ℕ → List (Answer × Entry) → List ℕ
printed log [] = []
printed log ((answer, e) ∷ es) =
    let rest = printed log es in
    if leb log e.level then bytes_of e ++ (said answer e ++ rest) else rest

-- The same where no file can be opened.
abbrev pub printed_lost : ℕ → List (Answer × Entry) → List ℕ
printed_lost log [] = []
printed_lost log ((answer, e) ∷ es) =
    let rest = printed_lost log es in
    if leb log e.level then bytes_of e ++ (said refused e ++ rest) else rest

print_log-stdout :
    (answer : Answer) (e : Entry) (g : Logging) (p : FilePath)
    → g.log_file_name ≡ some p
    → (print_log answer e g).stdout ≡ (g.stdout ++ bytes_of e) ++ file_says answer p e g.disk
unfolding print_log
print_log-stdout answer e g p h =
    ap
      (λ o.
        (g.stdout ++ bytes_of e)
        ++ elim o as (λ _. List ℕ) [ none ↦ [] | some q ↦ file_says answer q e g.disk ])
      h

write_says-said :
    (answer : Answer) (e : Entry) → write_says answer (bytes_of e) e.open_error ≡ said answer e
unfolding write_says open_line write_line
write_says-said refused e = refl
write_says-said (cut k error) e = refl
write_says-said written e = refl

file_says-said :
    (answer : Answer) (p : FilePath) (e : Entry) (d : Disk)
    → CanOpen d p
    → file_says answer p e d ≡ said answer e
unfolding file_says
file_says-said answer p e d c = rw (c.in_folder, c.no_folder) (write_says-said answer e)

file_says-lost :
    (answer : Answer) (p : FilePath) (e : Entry) (d : Disk)
    → d.is_folder (parent p) ≡ false
    → file_says answer p e d ≡ said refused e
unfolding file_says open_line
file_says-lost answer p e d h = rw h refl

-- The output behind a line, with what is said and what follows.
behind :
    (out line more rest : List ℕ)
    → ((out ++ line) ++ more) ++ rest ≡ out ++ (line ++ (more ++ rest))
behind out line more rest =
    append_assoc (out ++ line) more rest ∙ append_assoc out line (more ++ rest)

-- From a log file that can be opened, a list of calls appends to the standard output the lines of the
-- messages that are not below the level, in their order, each with what is said of the file.
pub calls-printed :
    (es : List (Answer × Entry)) (g : Logging) (p : FilePath)
    → g.log_file_name ≡ some p
    → CanOpen g.disk p
    → (calls es g).stdout ≡ g.stdout ++ printed g.log es
unfolding calls call enable
calls-printed [] g p h c = sym (append-nil g.stdout)
calls-printed ((answer, e) ∷ es) g p h c =
    elim (leb g.log e.level)
      as (λ b.
        (calls es (if b then print_log answer e g else g)).stdout
        ≡ g.stdout
          ++ (if b then bytes_of e ++ (said answer e ++ printed g.log es) else printed g.log es)) [
            | false ↦ calls-printed es g p h c
            | true ↦
                let can =
                  subst (λ d. CanOpen d p) (sym (print_log-disk answer e g p h))
                    (append_to-CanOpen answer p (bytes_of e) g.disk c) in
                let out =
                  print_log-stdout answer e g p h
                  ∙ ap (λ more. (g.stdout ++ bytes_of e) ++ more)
                      (file_says-said answer p e g.disk c) in
                unfold print_log in
                calls-printed es (print_log answer e g) p h can
                ∙ ap (λ text. text ++ printed g.log es) out
                ∙ behind g.stdout (bytes_of e) (said answer e) (printed g.log es)
          ]

-- No call says anything on the standard error.
pub calls-stderr : (es : List (Answer × Entry)) (g : Logging) → (calls es g).stderr ≡ g.stderr
unfolding calls call enable
calls-stderr [] g = refl
calls-stderr ((answer, e) ∷ es) g =
    elim (leb g.log e.level)
      as (λ b. (calls es (if b then print_log answer e g else g)).stderr ≡ g.stderr) [
        | false ↦ calls-stderr es g
        | true ↦ unfold print_log in calls-stderr es (print_log answer e g)
      ]

-- Where the folder of the log file does not exist, each message that is not below the level is printed
-- with the failure to open the file.
pub calls-printed_lost :
    (es : List (Answer × Entry)) (g : Logging) (p : FilePath)
    → g.log_file_name ≡ some p
    → g.disk.is_folder (parent p) ≡ false
    → (calls es g).stdout ≡ g.stdout ++ printed_lost g.log es
unfolding calls call enable
calls-printed_lost [] g p h f = sym (append-nil g.stdout)
calls-printed_lost ((answer, e) ∷ es) g p h f =
    elim (leb g.log e.level)
      as (λ b.
        (calls es (if b then print_log answer e g else g)).stdout
        ≡ g.stdout
          ++ (if b
              then bytes_of e ++ (said refused e ++ printed_lost g.log es)
              else printed_lost g.log es)) [
                | false ↦ calls-printed_lost es g p h f
                | true ↦
                    let disk =
                      print_log-disk answer e g p h
                      ∙ append_to-lost answer p (bytes_of e) g.disk f in
                    let out =
                      print_log-stdout answer e g p h
                      ∙ ap (λ more. (g.stdout ++ bytes_of e) ++ more)
                          (file_says-lost answer p e g.disk f) in
                    unfold print_log in
                    calls-printed_lost es (print_log answer e g) p h
                      (ap (λ d. d.is_folder (parent p)) disk ∙ f)
                    ∙ ap (λ text. text ++ printed_lost g.log es) out
                    ∙ behind g.stdout (bytes_of e) (said refused e) (printed_lost g.log es)
              ]
