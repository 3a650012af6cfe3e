-- ===== src/Logger/File/Names.antt =====
-- The names that `getFileName` of utils/logger.go makes of a date.
use gts.Base.{
  ℕ, ◌<◌, ◌+◌, ◌≡◌, refl, sym, ap, ◌∙◌, Bool, List, [], ◌∷◌, ◌++◌, length, length-append, drop,
  get_or, arith,
}
use gts.Logger.Decimal.{show, show_02, value, value-show, value-show_02, length-show_02}
use gts.Logger.File.{FilePath, Disk, Date, log_name, get_file_name}

-- A month and a day of two digits at most.
pub record InCalendar (t : Date) : Type 0 where
  pub month_small : t.month < 100
  pub day_small : t.day < 100

-- Lists of one length in front of equal lists.
append-cancel : (xs ys s t : List ℕ) → length s ≡ length t → xs ++ s ≡ ys ++ t → (xs ≡ ys) × (s ≡ t)
append-cancel [] [] s t e h = (refl, h)
append-cancel [] (y ∷ ys) s t e h = absurd (omega (arith, ap length h, length-append ys t, e))
append-cancel (x ∷ xs) [] s t e h = absurd (omega (arith, ap length h, length-append xs s, e))
append-cancel (x ∷ xs) (y ∷ ys) s t e h =
    let (p, q) = append-cancel xs ys s t e (ap (drop 1) h) in
    (rw (ap (λ l. get_or l 0 0) h, p) refl, q)

show-injective : (m n : ℕ) → show m ≡ show n → m ≡ n
show-injective m n h = sym (value-show m) ∙ ap (value 0) h ∙ value-show n

show_02-injective : (m n : ℕ) → show_02 m ≡ show_02 n → m ≡ n
show_02-injective m n h = sym (value-show_02 m) ∙ ap (value 0) h ∙ value-show_02 n

-- What follows the year in the name of a log file, and what follows the month.
abbrev behind_month : Date → List ℕ → List ℕ
behind_month t name = show_02 t.day ++ 45 ∷ name

abbrev behind_year : Date → List ℕ → List ℕ
behind_year t name = show_02 t.month ++ 45 ∷ behind_month t name

length-behind_month :
    (t : Date) (name : List ℕ) → InCalendar t → length (behind_month t name) ≡ 3 + length name
length-behind_month t name c =
    omega (arith, length-append (show_02 t.day) (45 ∷ name), length-show_02 t.day c.day_small)

length-behind_year :
    (t : Date) (name : List ℕ) → InCalendar t → length (behind_year t name) ≡ 6 + length name
length-behind_year t name c = omega (
  arith,
  length-append (show_02 t.month) (45 ∷ behind_month t name),
  length-show_02 t.month c.month_small,
  length-behind_month t name c,
)

log_name-injective :
    (s t : Date) (name : List ℕ)
    → InCalendar s
    → InCalendar t
    → log_name s name ≡ log_name t name
    → s ≡ t
unfolding log_name
log_name-injective s t name hs ht h =
    let (y, r) =
      append-cancel (show s.year) (show t.year) (45 ∷ behind_year s name) (45 ∷ behind_year t name)
        (omega (arith, length-behind_year s name hs, length-behind_year t name ht)) h in
    let (m, q) =
      append-cancel (show_02 s.month) (show_02 t.month) (45 ∷ behind_month s name)
        (45 ∷ behind_month t name)
        (omega (arith, length-behind_month s name hs, length-behind_month t name ht))
        (ap (drop 1) r) in
    let (d, _) =
      append-cancel (show_02 s.day) (show_02 t.day) (45 ∷ name) (45 ∷ name) refl (ap (drop 1) q) in
    λ i. record {
      year = show-injective s.year t.year y i;
      month = show_02-injective s.month t.month m i;
      day = show_02-injective s.day t.day d i;
    }

-- Two days have one log file, below one path and under one name, only if they are one day.
pub get_file_name-injective :
    (allowed : Bool) (s t : Date) (base_path : FilePath) (name : List ℕ) (d : Disk)
    → InCalendar s
    → InCalendar t
    → (get_file_name allowed s base_path name d).0 ≡ (get_file_name allowed t base_path name d).0
    → s ≡ t
unfolding get_file_name
get_file_name-injective allowed s t base_path name d hs ht h =
    log_name-injective s t name hs ht (ap (λ p. get_or p 0 []) h)
