-- ===== src/Gateway/Written/Latest.antt =====
-- apps/control-plane-api/src/actions/action-gateway.ts, `changeSet`: the files of a change set, their
-- order and their limits.
use employee_agent_platform.Prelude.{
  Bool-cases, inl, inr, ℕ, ◌≤◌, ◌≡◌, refl, Bool, true, false, ◌||◌, Option, none, some, List, [],
  ◌∷◌, ltb, length, if◌then◌else◌, arith, subst, sym, ap, ◌∙◌,
}
use employee_agent_platform.Gateway.{Ledger, FilePath, ChangedFile}
use employee_agent_platform.Gateway.Changes.{
  ReadWrite, path_lt, path_eq, in_order, insert_path, sort_paths, collect, recorded_writes,
  total_bytes, files, too_large, limited, change_set, max_files, max_bytes,
}
use employee_agent_platform.Gateway.Written.{find_file, last_write, path_eq_self, path_eq_iff}
use employee_agent_platform.Gateway.Written.Lookups.{
  IsApart, collect-IsApart, find-collect, find-sort_paths, or_else, unfound,
}

-- In the order of the paths, each of which occurs once.
abbrev pub IsOrdered : List ChangedFile → Type 0
IsOrdered [] = Unit
IsOrdered (f ∷ []) = Unit
IsOrdered (f ∷ g ∷ l) = (path_lt f.path g.path ≡ true) × IsOrdered (g ∷ l)

path_lt_connected :
    (p q : FilePath) → path_lt p q ≡ false → path_eq p q ≡ false → path_lt q p ≡ true
path_lt_connected [] [] h k = absurd (cc)
path_lt_connected [] (y ∷ q) h k = absurd (cc)
path_lt_connected (x ∷ p) [] h k = refl
path_lt_connected (x ∷ p) (y ∷ q) h k = elim (Bool-cases (path_lt p q)) [
  | inl e ↦ ground (arith, h, k, e)
  | inr n ↦ elim (Bool-cases (path_eq p q)) [
    | inl e ↦ ground (arith, h, k, e)
    | inr m ↦ ground (arith, h, k, path_lt_connected p q n m)
  ]
]

-- The first of a list comes after a file.
abbrev IsAbove : ChangedFile → List ChangedFile → Type 0
IsAbove g [] = Unit
IsAbove g (k ∷ l) = path_lt g.path k.path ≡ true

IsOrdered-first :
    (g : ChangedFile) (l : List ChangedFile) → IsAbove g l → IsOrdered l → IsOrdered (g ∷ l)
IsOrdered-first g [] h k = tt
IsOrdered-first g (x ∷ l) h k = (h, k)

IsOrdered-split :
    (g : ChangedFile) (l : List ChangedFile) → IsOrdered (g ∷ l) → IsAbove g l × IsOrdered l
IsOrdered-split g [] h = (tt, tt)
IsOrdered-split g (x ∷ l) h = (h.0, h.1)

insert_path-IsAbove :
    (g f : ChangedFile) (l : List ChangedFile)
    → path_lt g.path f.path ≡ true
    → IsAbove g l
    → IsAbove g (insert_path f l)
unfolding insert_path
insert_path-IsAbove g f [] y h = y
insert_path-IsAbove g f (k ∷ l) y h = elim (Bool-cases (path_lt k.path f.path)) [
  | inl e ↦ rw e h
  | inr n ↦ rw n y
]

insert_path-IsOrdered :
    (f : ChangedFile) (l : List ChangedFile)
    → find_file f.path l ≡ none
    → IsOrdered l
    → IsOrdered (insert_path f l)
unfolding insert_path
insert_path-IsOrdered f [] free h = tt
insert_path-IsOrdered f (g ∷ l) free h =
    let apart = unfound g (path_eq g.path f.path) (find_file f.path l) free in
    elim (Bool-cases (path_lt g.path f.path)) [
      | inr n ↦ rw n (path_lt_connected g.path f.path n apart.0, h)
      | inl y ↦
          let parts = IsOrdered-split g l h in
          rw y (
            IsOrdered-first g (insert_path f l) (insert_path-IsAbove g f l y parts.0)
              (insert_path-IsOrdered f l apart.1 parts.1))
    ]

sort_paths-IsOrdered : (l : List ChangedFile) → IsApart l → IsOrdered (sort_paths l)
unfolding sort_paths
sort_paths-IsOrdered [] h = tt
sort_paths-IsOrdered (f ∷ l) (h, k) =
    insert_path-IsOrdered f (sort_paths l) (find-sort_paths f.path l k ∙ h)
      (sort_paths-IsOrdered l k)

-- Every file of a list is what was written last at its path.
abbrev pub AreLatest : FilePath → List (Option ChangedFile) → List ChangedFile → Type 0
AreLatest directory ws [] = Unit
AreLatest directory ws (f ∷ l) =
    (last_write directory f.path ws ≡ some f) × AreLatest directory ws l

module _ (directory : FilePath) (ws : List (Option ChangedFile)) where
  found-AreLatest :
      (l : List ChangedFile)
      → IsApart l
      → ((p : FilePath) (f : ChangedFile)
          → find_file p l ≡ some f
          → last_write directory p ws ≡ some f)
      → AreLatest directory ws l
  found-AreLatest [] apart h = tt
  found-AreLatest (f ∷ l) (free, apart) h = (
    h f.path f (rw (path_eq_self f.path) refl),
    found-AreLatest l apart (λ p g e. h p g (rw (other p g e) e)),
  )
    where
      other : (p : FilePath) (g : ChangedFile) → find_file p l ≡ some g → path_eq f.path p ≡ false
      other p g e = elim (Bool-cases (path_eq f.path p)) [
        | inr n ↦ n
        | inl y ↦
            absurd (clash (sym free ∙ ap (λ x. find_file x l) ((path_eq_iff f.path p).0 y) ∙ e))
      ]
        where
          clash : none ≡ some g → ⊥
          clash k = cc

  insert_path-AreLatest :
      (f : ChangedFile) (l : List ChangedFile)
      → AreLatest directory ws (f ∷ l)
      → AreLatest directory ws (insert_path f l)
  unfolding insert_path
  insert_path-AreLatest f [] h = h
  insert_path-AreLatest f (g ∷ l) h = elim (Bool-cases (path_lt g.path f.path)) [
    | inr n ↦ rw n h
    | inl y ↦ rw y (h.1.0, insert_path-AreLatest f l (h.0, h.1.1))
  ]

  sort_paths-AreLatest :
      (l : List ChangedFile) → AreLatest directory ws l → AreLatest directory ws (sort_paths l)
  unfolding sort_paths
  sort_paths-AreLatest [] h = tt
  sort_paths-AreLatest (f ∷ l) h =
      insert_path-AreLatest f (sort_paths l) (h.0, sort_paths-AreLatest l h.1)

-- Within the limits.
abbrev pub IsLimited : List ChangedFile → Type 0
IsLimited fs = (1 ≤ length fs) × (length fs ≤ 100) × (total_bytes fs ≤ 1048576)

chosen :
    (b : Bool) (l fs : List ChangedFile)
    → (if b then too_large else files l) ≡ files fs
    → (b ≡ false) × (l ≡ fs)
chosen true l fs h = absurd (cc)
chosen false l fs h = (refl, cc)

limited-IsLimited : (l fs : List ChangedFile) → limited l ≡ files fs → (l ≡ fs) × IsLimited fs
limited-IsLimited [] fs h = absurd (cc)
limited-IsLimited (f ∷ l) fs h =
    (c.1, subst IsLimited c.1 (omega arith, few, ground (arith, few, c.0)))
  where
    c :
        ((ltb max_files (length (f ∷ l)) || ltb max_bytes (total_bytes (f ∷ l))) ≡ false)
        × ((f ∷ l) ≡ fs)
    c = chosen (ltb max_files (length (f ∷ l)) || ltb max_bytes (total_bytes (f ∷ l))) (f ∷ l) fs h

    few : length (f ∷ l) ≤ 100
    few = ground (arith, c.0)

-- A change set has, of every path, what the thread's recorded writes put there last, and every file of it
-- is such a last write. Its files are in the order of their paths, of which no two are the same; there
-- is at least one, there are at most a hundred, and they have at most a megabyte.
pub change_set_latest :
    (read : ReadWrite) (thread_id : ℕ) (directory p : FilePath) (l : Ledger) (fs : List ChangedFile)
    → change_set read thread_id directory l ≡ files fs
    → (find_file p fs ≡ last_write directory p (recorded_writes read thread_id l (in_order l)))
      × AreLatest directory (recorded_writes read thread_id l (in_order l)) fs
      × IsOrdered fs
      × IsLimited fs
unfolding change_set
change_set_latest read thread_id directory p l fs h = (
  ap (find_file p) (sym e.0) ∙ find-sort_paths p latest apart ∙ found p,
  subst (AreLatest directory writes) e.0 (
      sort_paths-AreLatest directory writes latest
        (found-AreLatest directory writes latest apart (λ q f y. sym (found q) ∙ y))),
  subst IsOrdered e.0 (sort_paths-IsOrdered latest apart),
  e.1,
)
  where
    writes : List (Option ChangedFile)
    writes = recorded_writes read thread_id l (in_order l)

    latest : List ChangedFile
    latest = collect directory writes []

    apart : IsApart latest
    apart = collect-IsApart directory writes [] tt

    e : (sort_paths latest ≡ fs) × IsLimited fs
    e = limited-IsLimited (sort_paths latest) fs h

    either : (o : Option ChangedFile) → or_else o none ≡ o
    either none = refl
    either (some f) = refl

    found : (q : FilePath) → find_file q latest ≡ last_write directory q writes
    found q = find-collect directory q writes [] ∙ either (last_write directory q writes)
