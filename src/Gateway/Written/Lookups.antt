-- ===== src/Gateway/Written/Lookups.antt =====
-- apps/control-plane-api/src/actions/action-gateway.ts, `changeSet`: the content of each path after
-- the loop and the sort.
use employee_agent_platform.Prelude.{
  Bool-cases, inl, inr, ◌⊎◌, ◌≡◌, refl, Bool, true, false, Option, none, some, List, [], ◌∷◌, ◌++◌,
  if◌then◌else◌, subst, sym, ap, ◌∙◌,
}
use employee_agent_platform.Gateway.{FilePath, ChangedFile}
use employee_agent_platform.Gateway.Changes.{
  path_eq, path_lt, relative_to, put_file, insert_path, sort_paths, put_under, collect,
}
use employee_agent_platform.Gateway.Written.{
  find_file, write_to, last_write, path_eq_iff, path_eq_comm, relative_to_under, relative_to_self,
  swapped, find-put_file,
}

abbrev pub or_else : Option ChangedFile → Option ChangedFile → Option ChangedFile
or_else none y = y
or_else (some f) y = some f

some_path : {p q : FilePath} → some p ≡ some q → p ≡ q
some_path e = cc

elsewhere :
    (directory p q x : FilePath)
    → relative_to directory x ≡ some q
    → path_eq q p ≡ false
    → path_eq x (directory ++ 47 ∷ p) ≡ false
elsewhere directory p q x e n = elim (Bool-cases (path_eq x (directory ++ 47 ∷ p))) [
  | inr y ↦ y
  | inl y ↦ absurd (
      clash (
        some_path (
          sym e
          ∙ ap (relative_to directory) ((path_eq_iff _ _).0 y)
          ∙ relative_to_self directory p)))
]
  where
    clash : q ≡ p → ⊥
    clash d = cc (sym ((path_eq_iff q p).1 d) ∙ n)

-- A file that is put under the directory is one that is written to.
find-put_under :
    (directory p : FilePath) (w : Option ChangedFile) (l : List ChangedFile)
    → find_file p (put_under directory w l) ≡ or_else (write_to directory p w) (find_file p l)
find-put_under directory p none l = refl
find-put_under directory p (some f) l = put (relative_to directory f.path) refl
  where
    written : Bool → Option ChangedFile
    written b = or_else (if b then some (record f { path = p }) else none) (find_file p l)

    put :
        (o : Option FilePath)
        → relative_to directory f.path ≡ o
        → find_file p (elim o [ none ↦ l | some q ↦ put_file (record f { path = q }) l ])
          ≡ written (path_eq f.path (directory ++ 47 ∷ p))
    put none e = elim (Bool-cases (path_eq f.path (directory ++ 47 ∷ p))) [
      | inr n ↦ sym (ap written n)
      | inl y ↦ absurd (clash ((path_eq_iff _ _).0 y))
    ]
      where
        clash : f.path ≡ (directory ++ 47 ∷ p) → ⊥
        clash h = cc (sym e ∙ ap (relative_to directory) h ∙ relative_to_self directory p)
    put (some q) e = find-put_file (record f { path = q }) p l ∙ same (Bool-cases (path_eq q p))
      where
        at : f.path ≡ (directory ++ 47 ∷ q)
        at = relative_to_under directory f.path q e

        same :
            (path_eq q p ≡ true) ⊎ (path_eq q p ≡ false)
            → find_file p (record f { path = q } ∷ l)
              ≡ written (path_eq f.path (directory ++ 47 ∷ p))
        same (inl y) =
            ap (λ b. if b then some (record f { path = q }) else find_file p l) y
            ∙ ap (λ x. some (record f { path = x })) d
            ∙ sym (ap written ((path_eq_iff _ _).1 (at ∙ ap (λ x. directory ++ 47 ∷ x) d)))
          where
            d : q ≡ p
            d = (path_eq_iff q p).0 y
        same (inr n) =
            ap (λ b. if b then some (record f { path = q }) else find_file p l) n
            ∙ sym (ap written (elsewhere directory p q f.path e n))

pub find-collect :
    (directory p : FilePath) (ws : List (Option ChangedFile)) (l : List ChangedFile)
    → find_file p (collect directory ws l) ≡ or_else (last_write directory p ws) (find_file p l)
unfolding collect
find-collect directory p [] l = refl
find-collect directory p (w ∷ rest) l =
    find-collect directory p rest (put_under directory w l)
    ∙ ap (or_else (last_write directory p rest)) (find-put_under directory p w l)
    ∙ later (last_write directory p rest)
  where
    later :
        (o : Option ChangedFile)
        → or_else o (or_else (write_to directory p w) (find_file p l))
          ≡ or_else (elim o [ some f ↦ some f | none ↦ write_to directory p w ]) (find_file p l)
    later none = refl
    later (some f) = refl

-- No two files of one path.
abbrev pub IsApart : List ChangedFile → Type 0
IsApart [] = Unit
IsApart (f ∷ l) = (find_file f.path l ≡ none) × IsApart l

put_file-IsApart : (f : ChangedFile) (l : List ChangedFile) → IsApart l → IsApart (put_file f l)
unfolding put_file
put_file-IsApart f [] h = (refl, tt)
put_file-IsApart f (g ∷ l) (h, k) = elim (Bool-cases (path_eq g.path f.path)) [
  | inl e ↦ rw e (subst (λ x. find_file x l ≡ none) ((path_eq_iff _ _).0 e) h, k)
  | inr n ↦ rw n (
    find-put_file f g.path l
        ∙ ap (λ b. if b then some f else find_file g.path l) (path_eq_comm g.path f.path n)
        ∙ h,
    put_file-IsApart f l k,
  )
]

pub collect-IsApart :
    (directory : FilePath) (ws : List (Option ChangedFile)) (l : List ChangedFile)
    → IsApart l
    → IsApart (collect directory ws l)
unfolding collect
collect-IsApart directory [] l h = h
collect-IsApart directory (w ∷ rest) l h =
    collect-IsApart directory rest (put_under directory w l) (put w)
  where
    put : (w : Option ChangedFile) → IsApart (put_under directory w l)
    put none = h
    put (some f) = under (relative_to directory f.path)
      where
        under :
            (o : Option FilePath)
            → IsApart (elim o [ none ↦ l | some q ↦ put_file (record f { path = q }) l ])
        under none = h
        under (some q) = put_file-IsApart (record f { path = q }) l h

pub unfound :
    (g : ChangedFile) (b : Bool) (m : Option ChangedFile)
    → (if b then some g else m) ≡ none
    → (b ≡ false) × (m ≡ none)
unfound g true m h = absurd (cc)
unfound g false m h = (refl, h)

-- Sorting changes no lookup.
find-insert_path :
    (f : ChangedFile) (p : FilePath) (l : List ChangedFile)
    → find_file f.path l ≡ none
    → find_file p (insert_path f l) ≡ find_file p (f ∷ l)
unfolding insert_path
find-insert_path f p [] h = refl
find-insert_path f p (g ∷ l) h = elim (Bool-cases (path_lt g.path f.path)) [
  | inr n ↦ rw n refl
  | inl y ↦
      let apart = unfound g (path_eq g.path f.path) (find_file f.path l) h in
      rw y (
        ap (λ x. if path_eq g.path p then some g else x) (find-insert_path f p l apart.1)
        ∙ swapped f g p (find_file p l) apart.0)
]

pub find-sort_paths :
    (p : FilePath) (l : List ChangedFile) → IsApart l → find_file p (sort_paths l) ≡ find_file p l
unfolding sort_paths
find-sort_paths p [] h = refl
find-sort_paths p (f ∷ l) (h, k) =
    find-insert_path f p (sort_paths l) (find-sort_paths f.path l k ∙ h)
    ∙ ap (λ y. if path_eq f.path p then some f else y) (find-sort_paths p l k)
