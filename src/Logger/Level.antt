-- ===== src/Logger/Level.antt =====
-- Levels and their names in utils/logger.go, and which messages a logger prints.
use gts.Base.{
  ℕ, ◌≤◌, ◌≡◌, ◌⊎◌, inl, inr, refl, true, none, some, List, [], ◌∷◌, ltb, if◌then◌else◌, arith,
}
use gts.Logger.{
  debug_str, trace_str, info_str, warning_str, error_str, fatal_str, debug, fatal, to_lower, eq_str,
  level_of, parse_log_level, get_log_level_str, new_log, enable, log_at,
}

eq_str-eq : (s t : List ℕ) → eq_str s t ≡ true → s ≡ t
unfolding eq_str
eq_str-eq [] [] h = refl
eq_str-eq (a ∷ s) (b ∷ t) h = ground (arith, eq_str-eq s t)
eq_str-eq [] (b ∷ t) h = absurd (ground arith)
eq_str-eq (a ∷ s) [] h = absurd (ground arith)

-- The level of a name in lower case is the one that prints as this name, and a level of a message.
level_of_sound :
    (s : List ℕ) (level : ℕ)
    → level_of s ≡ some level
    → (s ≡ get_log_level_str level) × (debug ≤ level) × (level ≤ fatal)
unfolding level_of get_log_level_str
level_of_sound s level h =
    let d = eq_str-eq s debug_str in
    let t = eq_str-eq s trace_str in
    let i = eq_str-eq s info_str in
    let w = eq_str-eq s warning_str in
    let e = eq_str-eq s error_str in let f = eq_str-eq s fatal_str in ground arith

-- A string that parses is, in lower case, the name that its level prints as.
pub parse_log_level_sound :
    (s : List ℕ) (level : ℕ)
    → parse_log_level s ≡ some level
    → (to_lower s ≡ get_log_level_str level) × (debug ≤ level) × (level ≤ fatal)
unfolding parse_log_level
parse_log_level_sound s level h = level_of_sound (to_lower s) level h

levels :
    (n : ℕ)
    → debug ≤ n
    → n ≤ fatal
    → (n ≡ 1) ⊎ ((n ≡ 2) ⊎ ((n ≡ 3) ⊎ ((n ≡ 4) ⊎ ((n ≡ 5) ⊎ (n ≡ 6)))))
levels n lo hi = ground arith

-- Every level of a message parses back from its name.
pub parse_log_level-get_log_level_str :
    (level : ℕ)
    → debug ≤ level
    → level ≤ fatal
    → parse_log_level (get_log_level_str level) ≡ some level
unfolding parse_log_level get_log_level_str
parse_log_level-get_log_level_str level lo hi = elim (levels level lo hi) [
  | inl e ↦ rw e refl
  | inr (inl e) ↦ rw e refl
  | inr (inr (inl e)) ↦ rw e refl
  | inr (inr (inr (inl e))) ↦ rw e refl
  | inr (inr (inr (inr (inl e)))) ↦ rw e refl
  | inr (inr (inr (inr (inr e)))) ↦ rw e refl
]

-- A logger made from a name prints exactly the messages whose level is at least that of the name,
-- each under the name of its own level.
pub log_at-eq :
    (s msg : List ℕ) (logger level : ℕ)
    → new_log s ≡ some logger
    → log_at level logger msg
      ≡ (if ltb level logger then none else some (get_log_level_str level, msg))
unfolding log_at enable
log_at-eq s msg logger level h = ground arith
