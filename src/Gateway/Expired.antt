-- ===== src/Gateway/Expired.antt =====
-- apps/control-plane-api/src/actions/action-gateway.ts, `expireDue`: the rows of approvals after a
-- sweep.
use employee_agent_platform.Prelude.{
  and_left, and_right, ℕ, ◌≡◌, refl, Bool, true, false, ◌&&◌, ◌||◌, not, All, Option, none, some,
  List, [], ◌∷◌, all, any, ◌==◌, leb, if◌then◌else◌, map, arith, sym, ap, ◌∙◌,
}
use employee_agent_platform.Prelude.Result.{ok, Post-ok}
use employee_agent_platform.Execution.{Stamp, ApprovalStatus}
use employee_agent_platform.Gateway.{Ledger, ApprovalRow, sort_by, insert_by}
use employee_agent_platform.Gateway.Decide.{
  is_pending, past, is_due, due_of, expiry, expire_row, expire_due,
}
use employee_agent_platform.Gateway.System.Once.{distinct}
use employee_agent_platform.Gateway.Books.{expire_rows, expire_due-SameBooks}

-- Sorting loses nothing.
module _ {A : Type 0} (key : A → ℕ) (P : A → Bool) where
  any-insert_by : (x : A) (l : List A) → any P (insert_by key x l) ≡ (P x || any P l)
  unfolding insert_by
  any-insert_by x [] = refl
  any-insert_by x (y ∷ l) = ground (arith, any-insert_by x l)

  any-sort_by : (l : List A) → any P (sort_by key l) ≡ any P l
  unfolding sort_by
  any-sort_by [] = refl
  any-sort_by (x ∷ l) = any-insert_by x (sort_by key l) ∙ ap (λ b. P x || b) (any-sort_by l)

abbrev has_id : ℕ → List ApprovalRow → Bool
has_id id due = any (λ d. d.id == id) due

-- What the expiry of a list of approvals does to a row.
abbrev expire_in : List ApprovalRow → ApprovalRow → ApprovalRow
expire_in due a =
    if has_id a.id due && is_pending a.status
    then record a { status = ApprovalStatus.expired }
    else a

expire_in-again :
    (d : ApprovalRow) (due : List ApprovalRow) (a : ApprovalRow)
    → expire_in due (expire_row d.id a) ≡ expire_in (d ∷ due) a
expire_in-again d due a = ground arith

map-map-same :
    {A : Type 0} (f g h : A → A)
    → ((a : A) → f (g a) ≡ h a)
    → (l : List A) → map f (map g l) ≡ map h l
map-map-same f g h e [] = refl
map-map-same f g h e (a ∷ l) = cc (e a, map-map-same f g h e l)

map_same : {A : Type 0} (f : A → A) → ((a : A) → f a ≡ a) → (l : List A) → map f l ≡ l
map_same f e [] = refl
map_same f e (a ∷ l) = cc (e a, map_same f e l)

expire_rows-map : (due rows : List ApprovalRow) → expire_rows due rows ≡ map (expire_in due) rows
expire_rows-map [] rows = sym (map_same (expire_in []) (λ a. refl) rows)
expire_rows-map (d ∷ due) rows =
    expire_rows-map due (map (expire_row d.id) rows)
    ∙ map-map-same (expire_in due) (expire_row d.id) (expire_in (d ∷ due)) (expire_in-again d due)
        rows

-- Where identifiers are apart, the rows to expire are told by their identifiers.
abbrev pub ids_of : List ApprovalRow → List ℕ
ids_of rows = map (λ a. a.id) rows

due_of-fresh :
    (now id : ℕ) (rows : List ApprovalRow)
    → all (λ y. not (y == id)) (ids_of rows) ≡ true
    → has_id id (due_of now rows) ≡ false
due_of-fresh now id [] h = refl
due_of-fresh now id (a ∷ rows) h =
    ground (arith, h, due_of-fresh now id rows (and_right (not (a.id == id)) _ h))

abbrev Told : ℕ → List ApprovalRow → ApprovalRow → Type 0
Told now due a = has_id a.id due ≡ is_due now a

Told-tail :
    (now : ℕ) (b : ApprovalRow) (due rows : List ApprovalRow)
    → all (λ y. not (y == b.id)) (ids_of rows) ≡ true
    → All (Told now due) rows
    → All (Told now (b ∷ due)) rows
Told-tail now b due [] h k = tt
Told-tail now b due (a ∷ rows) h (k, r) =
    (ground (arith, h, k), Told-tail now b due rows (and_right (not (a.id == b.id)) _ h) r)

due_of-Told :
    (now : ℕ) (rows : List ApprovalRow)
    → distinct (ids_of rows) ≡ true
    → All (Told now (due_of now rows)) rows
due_of-Told now [] h = tt
due_of-Told now (b ∷ rows) h =
    told (is_due now b) refl (due_of-Told now rows (and_right _ (distinct (ids_of rows)) h))
  where
    fresh : all (λ y. not (y == b.id)) (ids_of rows) ≡ true
    fresh = and_left _ (distinct (ids_of rows)) h

    told :
        (x : Bool)
        → is_due now b ≡ x
        → All (Told now (due_of now rows)) rows
        → All (Told now (if x then b ∷ due_of now rows else due_of now rows)) (b ∷ rows)
    told true e rest = (ground (arith, e), Told-tail now b (due_of now rows) rows fresh rest)
    told false e rest = (due_of-fresh now b.id rows fresh ∙ sym e, rest)

-- The row after a sweep: pending approvals whose time has come are expired.
abbrev pub expired_if : ℕ → ApprovalRow → ApprovalRow
expired_if now a = elim a.status [
  | ApprovalStatus.pending ↦ elim a.expires_at [
    | none ↦ a
    | some t ↦ if leb t now then record a { status = ApprovalStatus.expired } else a
  ]
  | _ ↦ a
]

expire_in-Told :
    (now : ℕ) (due : List ApprovalRow) (a : ApprovalRow)
    → has_id a.id due ≡ is_due now a
    → expire_in due a ≡ expired_if now a
expire_in-Told now due a h =
    row a.status a.expires_at (record a { status = ApprovalStatus.expired }) (has_id a.id due) h
  where
    row :
        (s : ApprovalStatus) (t : Option ℕ) (x : ApprovalRow) (b : Bool)
        → b ≡ (is_pending s && past now t)
        → (if b && is_pending s then x else a) ≡ elim s [
          | ApprovalStatus.pending ↦ elim t [ none ↦ a | some u ↦ if leb u now then x else a ]
          | _ ↦ a
        ]
    row ApprovalStatus.pending none x b e = ground (arith, e)
    row ApprovalStatus.pending (some u) x b e = ground (arith, e)
    row ApprovalStatus.approved t x b e = ground (arith, e)
    row ApprovalStatus.rejected t x b e = ground (arith, e)
    row ApprovalStatus.expired t x b e = ground (arith, e)

map-Told :
    (now : ℕ) (due rows : List ApprovalRow)
    → All (Told now due) rows
    → map (expire_in due) rows ≡ map (expired_if now) rows
map-Told now due [] h = refl
map-Told now due (a ∷ rows) (h, k) = cc (expire_in-Told now due a h, map-Told now due rows k)

Told-sorted :
    (now : ℕ) (due rows : List ApprovalRow)
    → All (Told now due) rows
    → All (Told now (sort_by expiry due)) rows
Told-sorted now due [] h = tt
Told-sorted now due (a ∷ rows) (h, k) =
    (any-sort_by expiry (λ d. d.id == a.id) due ∙ h, Told-sorted now due rows k)

-- A sweep that succeeds expires exactly the pending approvals whose time has come, whatever their order,
-- if no two approvals have the same identifier.
pub expire_due_exact :
    (s : Stamp) (l l' : Ledger)
    → distinct (ids_of l.approvals) ≡ true
    → expire_due s l ≡ ok l'
    → l'.approvals ≡ map (expired_if s.now) l.approvals
expire_due_exact s l l' h e =
    (Post-ok _ l' (expire_due-SameBooks s l) e).1
    ∙ expire_rows-map (sort_by expiry due) l.approvals
    ∙ map-Told s.now (sort_by expiry due) l.approvals
        (Told-sorted s.now due l.approvals (due_of-Told s.now l.approvals h))
  where
    due : List ApprovalRow
    due = due_of s.now l.approvals
