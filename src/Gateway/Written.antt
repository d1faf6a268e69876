-- ===== src/Gateway/Written.antt =====
-- apps/control-plane-api/src/actions/action-gateway.ts, `changeSet`: looking up the content of a path.
pub mod Lookups
pub mod Latest
use employee_agent_platform.Prelude.{
  Bool-cases, inl, inr, ◌⊎◌, and_left, and_right, and_intro, ==_iff, ◌↔◌, ℕ, ◌≤◌, ◌≡◌, refl, Bool,
  true, false, ◌&&◌, ◌||◌, not, Option, none, some, List, [], ◌∷◌, ◌++◌, ◌==◌, ltb, length,
  if◌then◌else◌, arith, subst, sym, ap, ◌∙◌, is_some,
}
use employee_agent_platform.Gateway.{Ledger, FilePath, ChangedFile}
use employee_agent_platform.Gateway.Changes.{
  ReadWrite, path_eq, path_lt, relative_to, put_file, insert_path, sort_paths, put_under, collect,
  recorded_writes, total_bytes, Changes, files, limited, change_set,
}

pub path_eq_iff : (p q : FilePath) → (path_eq p q ≡ true) ↔ (p ≡ q)
path_eq_iff [] [] = (λ h. refl, λ h. refl)
path_eq_iff [] (y ∷ q) = (λ h. absurd (cc), λ h. absurd (cc))
path_eq_iff (x ∷ p) [] = (λ h. absurd (cc), λ h. absurd (cc))
path_eq_iff (x ∷ p) (y ∷ q) = (
  λ h. cc ((==_iff x y).0 (and_left (x == y) _ h), (path_eq_iff p q).0 (and_right (x == y) _ h)),
  λ h. and_intro ((==_iff x y).1 (cc)) ((path_eq_iff p q).1 (cc)),
)

pub path_eq_self : (p : FilePath) → path_eq p p ≡ true
path_eq_self p = (path_eq_iff p p).1 refl

pub path_eq_comm : (p q : FilePath) → path_eq p q ≡ false → path_eq q p ≡ false
path_eq_comm p q h = elim (Bool-cases (path_eq q p)) [
  | inr n ↦ n
  | inl y ↦ absurd (clash ((path_eq_iff q p).0 y))
]
  where
    clash : q ≡ p → ⊥
    clash e = cc (subst (λ x. path_eq p x ≡ true) (sym e) (path_eq_self p))

pub path_ne : (p q r : FilePath) → path_eq p q ≡ false → path_eq p r ≡ true → path_eq q r ≡ false
path_ne p q r h k = elim (Bool-cases (path_eq q r)) [
  | inr n ↦ n
  | inl y ↦ absurd (clash ((path_eq_iff p r).0 k ∙ sym ((path_eq_iff q r).0 y)))
]
  where
    clash : p ≡ q → ⊥
    clash e = cc (subst (λ x. path_eq p x ≡ true) e (path_eq_self p))

abbrev pub find_file : FilePath → List ChangedFile → Option ChangedFile
find_file p [] = none
find_file p (f ∷ l) = if path_eq f.path p then some f else find_file p l

-- The content that a path under the directory has in the end, read from the last write backwards.
abbrev pub write_to : FilePath → FilePath → Option ChangedFile → Option ChangedFile
write_to directory p none = none
write_to directory p (some f) =
    if path_eq f.path (directory ++ 47 ∷ p) then some (record f { path = p }) else none

abbrev pub last_write : FilePath → FilePath → List (Option ChangedFile) → Option ChangedFile
last_write directory p [] = none
last_write directory p (w ∷ rest) = elim (last_write directory p rest) [
  | some f ↦ some f
  | none ↦ write_to directory p w
]

pub relative_to_under :
    (directory x p : FilePath) → relative_to directory x ≡ some p → x ≡ (directory ++ 47 ∷ p)
unfolding relative_to
relative_to_under [] [] p h = absurd (cc)
relative_to_under [] (c ∷ x) p h = elim (Bool-cases (c == 47)) [
  | inl y ↦ cc ((==_iff c 47).0 y, sym (ap (λ b. if b then some x else none) y) ∙ h)
  | inr n ↦ absurd (nothing (sym (ap (λ b. if b then some x else none) n) ∙ h))
]
  where
    nothing : none ≡ some p → ⊥
    nothing e = cc
relative_to_under (d ∷ directory) [] p h = absurd (cc)
relative_to_under (d ∷ directory) (c ∷ x) p h = elim (Bool-cases (d == c)) [
  | inl y ↦ cc (
    (==_iff d c).0 y,
    relative_to_under directory x p
        (sym (ap (λ b. if b then relative_to directory x else none) y) ∙ h),
  )
  | inr n ↦ absurd (nothing (sym (ap (λ b. if b then relative_to directory x else none) n) ∙ h))
]
  where
    nothing : none ≡ some p → ⊥
    nothing e = cc

pub relative_to_self :
    (directory p : FilePath) → relative_to directory (directory ++ 47 ∷ p) ≡ some p
unfolding relative_to
relative_to_self [] p = refl
relative_to_self (d ∷ directory) p = rw ((==_iff d d).1 refl) (relative_to_self directory p)

-- Two files of different paths are looked up in either order.
pub swapped :
    (f g : ChangedFile) (p : FilePath) (y : Option ChangedFile)
    → path_eq g.path f.path ≡ false
    → (if path_eq g.path p then some g else if path_eq f.path p then some f else y)
      ≡ (if path_eq f.path p then some f else if path_eq g.path p then some g else y)
swapped f g p y n = elim (Bool-cases (path_eq g.path p)) [
  | inl b ↦ rw (b, path_ne g.path f.path p n b) refl
  | inr b ↦ rw b refl
]

pub find-put_file :
    (f : ChangedFile) (p : FilePath) (l : List ChangedFile)
    → find_file p (put_file f l) ≡ find_file p (f ∷ l)
unfolding put_file
find-put_file f p [] = refl
find-put_file f p (g ∷ l) = elim (Bool-cases (path_eq g.path f.path)) [
  | inl e ↦ rw e (
      replaced (path_eq f.path p) (path_eq g.path p)
        (ap (λ x. path_eq x p) ((path_eq_iff _ _).0 e)))
  | inr n ↦ rw n (
      ap (λ y. if path_eq g.path p then some g else y) (find-put_file f p l)
      ∙ swapped f g p (find_file p l) n)
]
  where
    replaced :
        (b b' : Bool)
        → b' ≡ b
        → (if b then some f else find_file p l)
          ≡ (if b then some f else if b' then some g else find_file p l)
    replaced true b' e = refl
    replaced false b' e = ap (λ x. if x then some g else find_file p l) (sym e)
