-- ===== src/Registry/View.antt =====
-- The table of server/connmanager.go up to the order of its entries, which a Go map does not keep.
pub mod Calls
use mathlib.Core.List.Perm
use mathlib.Core.List.{Perm}
use mathlib.Core.Option
use mathlib.Core.Quot
use mathlib.Core.Quot.{Quot, Quot-set}
use native.Mathlib.Nat.{ℕ_set}
use gts.Base.{
  ℕ, suc, ◌+◌, ◌≡◌, ◌≢◌, refl, sym, ap, ◌∙◌, inl, inr, Bool, Option, none, some, List, [], ◌∷◌,
  ◌==◌, length, arith, subst, Bool-cases, ==_iff, if◌then◌else◌,
}
use gts.Base.Map.{
  lookup, insert, delete, keys, IsMap, insert-IsMap, delete-IsMap, lookup-insert, lookup-delete,
  lookup_of_Absent, Absent-of_lookup,
}

-- A table that is a map, and two that answer alike.
pub record Table : Type 0 where
  pub entries : List (ℕ × ℕ)
  pub is_map : IsMap entries

abbrev pub SameEntries : List (ℕ × ℕ) → List (ℕ × ℕ) → Type 0
SameEntries t u = (j : ℕ) → lookup j t ≡ lookup j u

abbrev pub Same : Table → Table → Type 0
Same t u = SameEntries t.entries u.entries

abbrev pub View : Type 0
View = Quot Same

length-delete_found :
    (k a : ℕ) (u : List (ℕ × ℕ)) → lookup k u ≡ some a → length u ≡ suc (length (delete k u))
unfolding lookup delete
length-delete_found k a [] h = absurd (ground arith)
length-delete_found k a ((j, b) ∷ u) h = ground (arith, length-delete_found k a u)

keys-delete_found :
    (k a : ℕ) (u : List (ℕ × ℕ)) → lookup k u ≡ some a → Perm (keys u) (k ∷ keys (delete k u))
unfolding lookup delete keys
keys-delete_found k a [] h = absurd (ground arith)
keys-delete_found k a ((j, b) ∷ u) h = elim (Bool-cases (j == k)) [
  | inl e ↦ rw e (subst (λ x. Perm (j ∷ keys u) (x ∷ keys u)) ((==_iff j k).0 e) Perm.rfl)
  | inr e ↦ rw e (
      Perm.trans (Perm.cons j (keys-delete_found k a u (simp e at h)))
        (Perm.swap k j (keys (delete k u))))
]

-- Without its first entry, a map still answers like the other without this key.
SameEntries-tail :
    (k a : ℕ) (t u : List (ℕ × ℕ))
    → IsMap ((k, a) ∷ t)
    → IsMap u
    → SameEntries ((k, a) ∷ t) u
    → SameEntries t (delete k u)
unfolding lookup
SameEntries-tail k a t u m n h j =
    ground (arith, lookup-delete k j u n, h j, lookup_of_Absent k t m.0)

found_first : (k a : ℕ) (t u : List (ℕ × ℕ)) → SameEntries ((k, a) ∷ t) u → lookup k u ≡ some a
unfolding lookup
found_first k a t u h = ground (arith, h k)

empty_of_Same : (u : List (ℕ × ℕ)) → SameEntries [] u → u ≡ []
unfolding lookup
empty_of_Same [] h = refl
empty_of_Same ((k, a) ∷ u) h = absurd (ground (arith, h k))

pub keys-Same : (t u : List (ℕ × ℕ)) → IsMap t → IsMap u → SameEntries t u → Perm (keys t) (keys u)
unfolding keys
keys-Same [] u m n h = rw (empty_of_Same u h) Perm.nil
keys-Same ((k, a) ∷ t) u m n h =
    let rest = keys-Same t (delete k u) m.1 (delete-IsMap k u n) (SameEntries-tail k a t u m n h) in
    Perm.trans (Perm.cons k rest) (Perm.symm (keys-delete_found k a u (found_first k a t u h)))

pub length-Same : (t u : List (ℕ × ℕ)) → IsMap t → IsMap u → SameEntries t u → length t ≡ length u
length-Same [] u m n h = rw (empty_of_Same u h) refl
length-Same ((k, a) ∷ t) u m n h =
    let rest =
      length-Same t (delete k u) m.1 (delete-IsMap k u n) (SameEntries-tail k a t u m n h) in
    ap suc rest ∙ sym (length-delete_found k a u (found_first k a t u h))

-- What a client can ask of a view, and what it can do to it.
unfoldable pub found : ℕ → View → Option ℕ
found j = Quot.lift (Option.is_set ℕ_set) (λ t. lookup j t.entries) (λ t u h. h j)

unfoldable pub size : View → ℕ
size =
    Quot.lift ℕ_set (λ t. length t.entries)
      (λ t u h. length-Same t.entries u.entries t.is_map u.is_map h)

abbrev pub inserted : ℕ → ℕ → Table → Table
inserted key value t = record {
  entries = insert key value t.entries;
  is_map = insert-IsMap key value t.entries t.is_map;
}

abbrev pub deleted : ℕ → Table → Table
deleted key t = record {
  entries = delete key t.entries;
  is_map = delete-IsMap key t.entries t.is_map;
}

pub inserted-Same :
    (key value : ℕ) (t u : Table) → Same t u → Same (inserted key value t) (inserted key value u)
inserted-Same key value t u h j =
    lookup-insert key j value t.entries
    ∙ ap (λ o. if key == j then some value else o) (h j)
    ∙ sym (lookup-insert key j value u.entries)

pub deleted-Same : (key : ℕ) (t u : Table) → Same t u → Same (deleted key t) (deleted key u)
deleted-Same key t u h j =
    lookup-delete key j t.entries t.is_map
    ∙ ap (λ o. if key == j then none else o) (h j)
    ∙ sym (lookup-delete key j u.entries u.is_map)

unfoldable pub put : ℕ → ℕ → View → View
put key value =
    Quot.lift Quot-set (λ t. Quot.mk (inserted key value t))
      (λ t u h. Quot.sound (inserted-Same key value t u h))

unfoldable pub drop_key : ℕ → View → View
drop_key key =
    Quot.lift Quot-set (λ t. Quot.mk (deleted key t)) (λ t u h. Quot.sound (deleted-Same key t u h))

-- Under two numbers, connections are put into the table in either order.
pub put_comm : (j k a b : ℕ) (v : View) → j ≢ k → put j a (put k b v) ≡ put k b (put j a v)
unfolding put
put_comm j k a b v ne =
    Quot.ind {β = λ v. put j a (put k b v) ≡ put k b (put j a v)} (λ v. Quot-set _ _)
      (λ t. Quot.sound (λ i. ground (
        arith,
        lookup-insert j i a (insert k b t.entries),
        lookup-insert k i b t.entries,
        lookup-insert k i b (insert j a t.entries),
        lookup-insert j i a t.entries,
      )))
      v
