-- ===== src/Execution/Logs.antt =====
-- The log entries of a computation, over it and its children.
use mathlib.Core.List.Perm
use mathlib.Core.List.{Perm}
use veda_bvm.Common.{
  ℕ, ◌≤◌, ◌≡◌, refl, sym, ap, ◌∙◌, subst, List, [], ◌∷◌, ◌++◌, All, arith, ltb, Bool-cases, inl,
  inr, append_assoc,
}
use veda_bvm.Execution.Entries.{insert_entry, sort_entries, get_raw_log_entries, raw_entries_of}
use veda_bvm.Execution.Refunds.{survivors, survivors_of}
use veda_bvm.Execution.{Frame, LogEntry, Tree, tree, Children, childless, append, is_error}

-- No entry is numbered above a later one.
abbrev pub Rising : List LogEntry → Type 0
Rising [] = Unit
Rising (e ∷ es) = All (λ (d : LogEntry). e.counter ≤ d.counter) es × Rising es

abbrev pub all_entries : List Frame → List LogEntry
all_entries [] = []
all_entries (f ∷ fs) = f.log_entries ++ all_entries fs

all_entries-append :
    (xs ys : List Frame) → all_entries (xs ++ ys) ≡ all_entries xs ++ all_entries ys
all_entries-append [] ys = refl
all_entries-append (f ∷ xs) ys =
    ap (λ l. f.log_entries ++ l) (all_entries-append xs ys)
    ∙ sym (append_assoc f.log_entries (all_entries xs) (all_entries ys))

insert_entry-perm : (e : LogEntry) (ds : List LogEntry) → Perm (insert_entry e ds) (e ∷ ds)
unfolding insert_entry
insert_entry-perm e [] = Perm.refl (e ∷ [])
insert_entry-perm e (d ∷ ds) =
    let rest = insert_entry-perm e ds in
    elim (Bool-cases (ltb d.counter e.counter)) [
      | inl later ↦ rw later (Perm.trans (Perm.cons d rest) (Perm.swap e d ds))
      | inr first ↦ rw first (Perm.refl (e ∷ d ∷ ds))
    ]

sort_entries-perm : (es : List LogEntry) → Perm (sort_entries es) es
unfolding sort_entries
sort_entries-perm [] = Perm.refl []
sort_entries-perm (e ∷ es) =
    Perm.trans (insert_entry-perm e (sort_entries es)) (Perm.cons e (sort_entries-perm es))

All-insert_entry :
    (n : ℕ) (e : LogEntry) (ds : List LogEntry)
    → n ≤ e.counter
    → All (λ (d : LogEntry). n ≤ d.counter) ds
    → All (λ (d : LogEntry). n ≤ d.counter) (insert_entry e ds)
unfolding insert_entry
All-insert_entry n e [] le h = (le, tt)
All-insert_entry n e (d ∷ ds) le (k, h) =
    let rest = All-insert_entry n e ds le h in
    elim (Bool-cases (ltb d.counter e.counter)) [
      | inl later ↦ rw later (k, rest)
      | inr first ↦ rw first (le, (k, h))
    ]

All-le :
    (m n : ℕ) (ds : List LogEntry)
    → m ≤ n
    → All (λ (d : LogEntry). n ≤ d.counter) ds
    → All (λ (d : LogEntry). m ≤ d.counter) ds
All-le m n [] le h = tt
All-le m n (d ∷ ds) le (k, h) = (omega arith, All-le m n ds le h)

insert_entry-Rising : (e : LogEntry) (ds : List LogEntry) → Rising ds → Rising (insert_entry e ds)
unfolding insert_entry
insert_entry-Rising e [] h = (tt, tt)
insert_entry-Rising e (d ∷ ds) (above, h) =
    let rest = insert_entry-Rising e ds h in
    elim (Bool-cases (ltb d.counter e.counter)) [
      | inl later ↦ rw later (All-insert_entry d.counter e ds (ground arith) above, rest)
      | inr first ↦
          let le : e.counter ≤ d.counter = ground arith in
          rw first ((le, All-le e.counter d.counter ds le above), (above, h))
    ]

sort_entries-Rising : (es : List LogEntry) → Rising (sort_entries es)
unfolding sort_entries
sort_entries-Rising [] = tt
sort_entries-Rising (e ∷ es) = insert_entry-Rising e (sort_entries es) (sort_entries-Rising es)

mutual
  unfolding get_raw_log_entries survivors

  entries_perm : (t : Tree) → Perm (get_raw_log_entries t) (all_entries (survivors t))
  entries_perm (tree f cs) =
      let below = entries_of_perm cs in
      elim (Bool-cases (is_error f)) [
        | inl failed ↦ rw failed (Perm.refl [])
        | inr fine ↦ rw fine (
            Perm.trans (sort_entries-perm (f.log_entries ++ raw_entries_of cs))
              (Perm.append_left f.log_entries below))
      ]

  entries_of_perm : (cs : Children) → Perm (raw_entries_of cs) (all_entries (survivors_of cs))
  entries_of_perm childless = Perm.refl []
  entries_of_perm (append cs child) =
      subst (λ l. Perm (raw_entries_of cs ++ get_raw_log_entries child) l)
        (sym (all_entries-append (survivors_of cs) (survivors child)))
        (Perm.append (entries_of_perm cs) (entries_perm child))

entries-Rising : (t : Tree) → Rising (get_raw_log_entries t)
unfolding get_raw_log_entries
entries-Rising (tree f cs) = elim (Bool-cases (is_error f)) [
  | inl failed ↦ rw failed tt
  | inr fine ↦ rw fine (sort_entries-Rising (f.log_entries ++ raw_entries_of cs))
]

-- The log entries of a computation are those of the computations in its tree that have no error, in
-- themselves or in a computation above them, each as often, by rising counters.
pub get_raw_log_entries_lem :
    (t : Tree)
    → Perm (get_raw_log_entries t) (all_entries (survivors t)) × Rising (get_raw_log_entries t)
get_raw_log_entries_lem t = (entries_perm t, entries-Rising t)
