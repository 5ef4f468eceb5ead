-- ===== src/Cli/Logs/Cursor.antt =====
-- The entries behind the cursor of `jobctl logs` (cmd/cli/cmd/logs.go), page by page.
use jobplane.Base.{
  ℕ, zero, suc, ◌≤◌, ◌<◌, ◌≡◌, refl, sym, ◌∙◌, subst, inl, inr, Bool, true, false, List, [], ◌∷◌,
  map, arith, take, drop, select, All, All-mono, All-select, All-trivial, Bool-cases,
}
use jobplane.Base.Int.{ℤ, pos, ltb_ℤ}
use jobplane.Base.Sort.{order_by, insert_by}
use jobplane.Store.Models.{Uuid, LogEntry}
use jobplane.Store.Logs.{is_older, is_after}
use jobplane.Api.{LogLine}
use jobplane.Controller.Handlers.Logs.{to_log_line}
use jobplane.Cli.Logs.{printed, last_id, Shown}

-- Later entries have greater ids and later times.
abbrev pub IsChronological : List LogEntry → Type 0
IsChronological [] = Unit {0}
IsChronological (l ∷ ls) =
    All (λ m. (l.id < m.id) × (l.created_at < m.created_at)) ls × IsChronological ls

insert_by-first :
    (tie : LogEntry → ℕ) (l : LogEntry) (ls : List LogEntry)
    → All (λ m. (l.id < m.id) × (l.created_at < m.created_at)) ls
    → insert_by (is_older tie) l ls ≡ l ∷ ls
unfolding insert_by
insert_by-first tie l [] h = refl
insert_by-first tie l (m ∷ ms) h = ground (arith, h.0.1)

pub order_by-IsChronological :
    (tie : LogEntry → ℕ) (ls : List LogEntry) → IsChronological ls → order_by (is_older tie) ls ≡ ls
unfolding order_by
order_by-IsChronological tie [] h = refl
order_by-IsChronological tie (l ∷ ls) h =
    rw (order_by-IsChronological tie ls h.1) (insert_by-first tie l ls h.0)

-- The ids are greater than `a`.
abbrev IsBeyond : ℕ → LogEntry → Type 0
IsBeyond a l = a < l.id

-- The cursor never goes back.
last_id-from : (a : ℕ) (lines : List LogLine) → (m : ℕ) × (last_id (pos a) lines ≡ pos m) × (a ≤ m)
unfolding last_id
last_id-from a [] = (a, refl, omega arith)
last_id-from a (line ∷ lines) = elim (Bool-cases (ltb_ℤ (pos a) (pos line.id))) [
  | inl later ↦ let (m, e, le) = last_id-from line.id lines in rw later (m, e, ground arith)
  | inr earlier ↦ let (m, e, le) = last_id-from a lines in rw earlier (m, e, le)
]

beyond : ℤ → LogEntry → Bool
beyond a l = ltb_ℤ a (pos l.id)

select-All : (a : ℕ) (ls : List LogEntry) → All (IsBeyond a) ls → select (beyond (pos a)) ls ≡ ls
unfolding beyond
select-All a [] h = refl
select-All a (l ∷ ls) h = ground (arith, h.0, select-All a ls h.1)

-- After the first `n` entries, the cursor selects the others.
select-drop :
    (n a : ℕ) (ls : List LogEntry)
    → IsChronological ls
    → All (IsBeyond a) ls
    → select (beyond (last_id (pos a) (map to_log_line (take n ls)))) ls ≡ drop n ls
unfolding last_id to_log_line beyond
select-drop zero a ls c h = select-All a ls h
select-drop (suc n) a [] c h = refl
select-drop (suc n) a (l ∷ ls) c h =
    let later : ltb_ℤ (pos a) (pos l.id) ≡ true = ground (arith, h.0) in
    let (m, e, le) = last_id-from l.id (map to_log_line (take n ls)) in
    let cursor = last_id (pos l.id) (map to_log_line (take n ls)) in
    let step : last_id (pos a) (map to_log_line (take (suc n) (l ∷ ls))) ≡ cursor =
      rw (last_id, later) refl in
    let passed : beyond cursor l ≡ false = rw e (ground arith) in
    subst (λ z. select (beyond z) (l ∷ ls) ≡ drop n ls) (sym step)
      (rw passed (
        select-drop n l.id ls c.1 (
          All-mono (λ k. (l.id < k.id) × (l.created_at < k.created_at)) (IsBeyond l.id) ls
            (λ k p. p.0) c.0)))

-- A later cursor selects from what an earlier one selects.
select-select :
    (i : Uuid) (a m : ℕ) (logs : List LogEntry)
    → a ≤ m
    → select (is_after i (pos m)) logs ≡ select (beyond (pos m)) (select (is_after i (pos a)) logs)
unfolding beyond
select-select i a m [] h = refl
select-select i a m (l ∷ ls) h = ground (arith, select-select i a m ls h)

pub drop-IsChronological :
    (n : ℕ) (ls : List LogEntry) → IsChronological ls → IsChronological (drop n ls)
drop-IsChronological zero ls h = h
drop-IsChronological (suc n) [] h = h
drop-IsChronological (suc n) (l ∷ ls) h = drop-IsChronological n ls h.1

-- What is printed of a list of entries.
abbrev pub all_of : List LogEntry → Shown
all_of ls = record { output = map printed (map to_log_line ls); has_failed = false }

module _ (i : Uuid) (logs : List LogEntry) where
  -- The entries after the cursor, and the page of them that the controller answers with.
  abbrev pub left : ℕ → List LogEntry
  left a = select (is_after i (pos a)) logs

  left-IsBeyond : (a : ℕ) → All (IsBeyond a) (left a)
  left-IsBeyond a =
      All-select (λ _. Unit {0}) (IsBeyond a) (is_after i (pos a)) logs (λ l h _. ground arith)
        (All-trivial logs)

  pub left-page :
      (n a : ℕ)
      → IsChronological (left a)
      → (m : ℕ) × (last_id (pos a) (map to_log_line (take n (left a))) ≡ pos m)
        × (left m ≡ drop n (left a))
  left-page n a c =
      let (m, e, le) = last_id-from a (map to_log_line (take n (left a))) in
      (
        m,
        e,
        select-select i a m logs le
            ∙ subst (λ z. select (beyond z) (left a) ≡ drop n (left a)) e
                (select-drop n a (left a) c (left-IsBeyond a)),
      )
