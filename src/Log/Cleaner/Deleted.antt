-- ===== src/Log/Cleaner/Deleted.antt =====
-- Which files the deletion of logs takes and which it keeps (mcproc/src/daemon/log/cleaner.rs).
use mathlib.Core.List.{Memᴰ}
use mcproc.Prelude.{
  ◌↔◌, ℕ, ◌++◌, codes, ◌≡◌, refl, sym, ap, ◌∙◌, inl, inr, Bool, true, false, not, ◌&&◌, ◌||◌, List,
  [], ◌∷◌, map, filter, any, Option, none, some, subst, Text, text_eq, text_eq→eq, text_eq_iff,
  contains_text, Bool-cases, arith,
}
use mcproc.Process.Registry.{insert_sorted, sort, text_le}
use mcproc.Log.Cleaner.Extension.{any-Memᴰ, Memᴰ-any, is_log-extension}
use mcproc.Log.Cleaner.{
  is_log, is_log_file, extension, DirEntry, path, is_candidate, candidates, without, remove_files,
  remove_dir, delete_project_logs,
}

contains_text-insert_sorted :
    (p t : Text) (us : List Text)
    → contains_text p (insert_sorted t us) ≡ (text_eq t p || contains_text p us)
unfolding insert_sorted
contains_text-insert_sorted p t [] = refl
contains_text-insert_sorted p t (u ∷ us) = elim (Bool-cases (text_le t u)) [
  | inl e ↦ rw e refl
  | inr e ↦ rw e (ground (arith, contains_text-insert_sorted p t us))
]

contains_text-sort : (p : Text) (ts : List Text) → contains_text p (sort ts) ≡ contains_text p ts
unfolding sort
contains_text-sort p [] = refl
contains_text-sort p (t ∷ ts) =
    contains_text-insert_sorted p t (sort ts) ∙ ap (λ b. text_eq t p || b) (contains_text-sort p ts)

contains_text-candidates :
    (p dir : Text) (exclude : List Text) (entries : List DirEntry)
    → contains_text p (candidates dir exclude entries)
      ≡ any (λ e. text_eq (path dir e) p && is_candidate dir exclude e) entries
unfolding candidates
contains_text-candidates p dir exclude entries =
    contains_text-sort p (map (path dir) (filter (is_candidate dir exclude) entries))
    ∙ picked entries
  where
    picked :
        (es : List DirEntry)
        → contains_text p (map (path dir) (filter (is_candidate dir exclude) es))
          ≡ any (λ e. text_eq (path dir e) p && is_candidate dir exclude e) es
    picked [] = refl
    picked (e ∷ es) = elim (Bool-cases (is_candidate dir exclude e)) [
      | inl h ↦ rw h (ground (arith, picked es))
      | inr h ↦ rw h (ground (arith, picked es))
    ]

contains_text-filter :
    (p : Text) (f : Text → Bool) (ts : List Text)
    → contains_text p (filter f ts) ≡ (contains_text p ts && f p)
contains_text-filter p f [] = refl
contains_text-filter p f (t ∷ ts) = elim (Bool-cases (text_eq t p)) [
  | inl e ↦
      let same : f t ≡ f p = ap f (text_eq→eq t p e) in ground (arith, contains_text-filter p f ts)
  | inr e ↦ ground (arith, contains_text-filter p f ts)
]

-- What is left of the entries when these files are gone.
abbrev pub remaining : Text → List Text → List DirEntry → List DirEntry
remaining dir deleted = filter (λ e. not (contains_text (path dir e) deleted))

without-remaining :
    (dir p : Text) (ds : List Text) (es : List DirEntry)
    → remaining dir ds (without dir p es) ≡ remaining dir (p ∷ ds) es
unfolding without
without-remaining dir p ds [] = refl
without-remaining dir p ds (e ∷ es) = elim (Bool-cases (text_eq p (path dir e))) [
  | inl gone ↦ rw gone (without-remaining dir p ds es)
  | inr kept ↦ elim (Bool-cases (contains_text (path dir e) ds)) [
    | inl later ↦ rw (kept, later) (without-remaining dir p ds es)
    | inr never ↦ rw (kept, never) (ap (λ t. e ∷ t) (without-remaining dir p ds es))
  ]
]

remaining_all : (dir : Text) (es : List DirEntry) → remaining dir [] es ≡ es
remaining_all dir [] = refl
remaining_all dir (e ∷ es) = ap (λ t. e ∷ t) (remaining_all dir es)

remove_files_lem :
    (permits : Text → Bool) (dir : Text) (ps : List Text) (es : List DirEntry)
    → remove_files permits dir ps es ≡ (filter permits ps, remaining dir (filter permits ps) es)
unfolding remove_files
remove_files_lem permits dir [] es = ap (λ t. ([], t)) (sym (remaining_all dir es))
remove_files_lem permits dir (p ∷ ps) es = elim (Bool-cases (permits p)) [
  | inl e ↦
      rw (e, remove_files, remove_files_lem permits dir ps (without dir p es))
        (ap (λ t. (p ∷ filter permits ps, t)) (without-remaining dir p (filter permits ps) es))
  | inr e ↦ rw (e, remove_files) (remove_files_lem permits dir ps es)
]

-- The entries of a directory that is there; none of one that is not.
abbrev pub entries_of : Option (List DirEntry) → List DirEntry
entries_of none = []
entries_of (some entries) = entries

remove_dir-entries :
    (permits : Text → Bool) (dir : Text) (es : List DirEntry)
    → entries_of (remove_dir permits dir es) ≡ es
unfolding remove_dir
remove_dir-entries permits dir [] = elim (Bool-cases (permits dir)) [
  | inl e ↦ rw e refl
  | inr e ↦ rw e refl
]
remove_dir-entries permits dir (e ∷ es) = refl

-- `p` is the path of an entry that is a regular file, with a name that ends in `.log` behind something, and
-- it is not excluded.
abbrev pub IsDeletable : Text → List Text → List DirEntry → Text → Type 0
IsDeletable dir exclude entries p =
    (e : DirEntry) × Memᴰ e entries
    × (path dir e ≡ p)
    × (e.is_file ≡ true)
    × ((c : ℕ) × (stem : Text) × (e.name ≡ c ∷ stem ++ codes ".log"))
    × (contains_text p exclude ≡ false)

candidate-IsDeletable :
    (dir : Text) (exclude : List Text) (es : List DirEntry) (p : Text)
    → (any (λ e. text_eq (path dir e) p && is_candidate dir exclude e) es ≡ true)
      ↔ IsDeletable dir exclude es p
unfolding is_candidate is_log_file
candidate-IsDeletable dir exclude es p = (
  λ h.
      let (e, m, k) =
        any-Memᴰ (λ (x : DirEntry). text_eq (path dir x) p && is_candidate dir exclude x) es h in
      let same : path dir e ≡ p = text_eq→eq (path dir e) p (ground arith) in
      (
        e,
        m,
        same,
        ground arith,
        (is_log-extension e.name).0 (ground arith),
        subst (λ t. contains_text t exclude ≡ false) same (ground arith),
      ),
  λ (e, m, same, file, named, kept).
      let out : contains_text (path dir e) exclude ≡ false =
        subst (λ t. contains_text t exclude ≡ false) (sym same) kept in
      let log : is_log (extension e.name) ≡ true = (is_log-extension e.name).1 named in
      Memᴰ-any (λ (x : DirEntry). text_eq (path dir x) p && is_candidate dir exclude x) es e m
        (ground (arith, text_eq_iff (path dir e) p)),
)

-- A path is among those deleted exactly if it is the path of an entry that is a regular file, that has a name
-- which ends in `.log` behind something and that is not excluded, and the system lets it go. The entries
-- that are left are the others, in their order.
pub delete_project_logs-deletes :
    (permits : Text → Bool) (dir : Text) (exclude : List Text) (before : Option (List DirEntry))
    → let (deleted, after) = delete_project_logs permits dir exclude before in
      ((p : Text)
        → (contains_text p deleted ≡ true)
          ↔ (IsDeletable dir exclude (entries_of before) p × (permits p ≡ true)))
      × (entries_of after
          ≡ filter (λ e. not (contains_text (path dir e) deleted)) (entries_of before))
unfolding delete_project_logs
delete_project_logs-deletes permits dir exclude none =
    (λ p. (λ h. absurd (ground arith), λ (able, k). elim able.1 [ ]), refl)
delete_project_logs-deletes permits dir exclude (some es) =
    let cs = candidates dir exclude es in
    rw (remove_files_lem permits dir cs es)
      (deletes, remove_dir-entries permits dir (remaining dir (filter permits cs) es))
  where
    deletes :
        (p : Text)
        → (contains_text p (filter permits (candidates dir exclude es)) ≡ true)
          ↔ (IsDeletable dir exclude es p × (permits p ≡ true))
    deletes p =
        let both = contains_text-filter p permits (candidates dir exclude es) in
        let listed = contains_text-candidates p dir exclude es in
        let able = candidate-IsDeletable dir exclude es p in
        (
          λ h. (able.0 (ground arith), ground arith),
          λ (k, let_go). let there = able.1 k in ground arith,
        )
