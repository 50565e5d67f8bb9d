-- ===== src/Api/Discovered.antt =====
-- The names of the log files of a directory (`discover_log_names` of
-- mcproc/src/daemon/api/grpc/log_handlers.rs).
use mathlib.Core.List.{Memᴰ}
use mcproc.Prelude.{
  ℕ, ◌≡◌, ◌↔◌, refl, sym, ◌∙◌, subst, ◌⊎◌, inl, inr, true, &&_true, List, [], ◌∷◌, ◌++◌, none, some,
  some_inj, none_absurd, Text, codes, Bool-cases,
}
use mcproc.Process.Registry.{sort, insert_sorted, text_le}
use mcproc.Log.Cleaner.{DirEntry, is_log_file, is_log, extension, split_last_dot}
use mcproc.Log.Cleaner.Extension.{is_log-extension, split_last_dot-append}
use mcproc.Api.Logs.{ReadDir, missing, failed, entries, stem_of, log_names, discover_log_names}

-- A file of the directory has the name, which is not empty, and `.log` behind it.
abbrev pub IsLogName : List DirEntry → Text → Type 0
IsLogName es n =
    (e : DirEntry) × Memᴰ e es
    × (e.is_file ≡ true)
    × ((c : ℕ) × (stem : Text) × (n ≡ c ∷ stem) × (e.name ≡ c ∷ stem ++ codes ".log"))

-- The names of a directory: none of one that is missing, and else exactly those of its log files.
abbrev pub IsDirectory : ReadDir → List Text → Type 0
IsDirectory missing names = (names ≡ [])
IsDirectory failed names = ⊥
IsDirectory (entries es) names = (n : Text) → Memᴰ n names ↔ IsLogName es n

stem_of-log :
    (name : Text) (c : ℕ) (stem : Text)
    → name ≡ c ∷ stem ++ codes ".log"
    → stem_of (split_last_dot name) ≡ c ∷ stem
unfolding stem_of split_last_dot
stem_of-log name c stem e = rw (e, split_last_dot-append (c ∷ stem) (codes "log") refl) refl

-- What makes an entry the file of a name.
Names : DirEntry → Text → Type 0
Names e n =
    (e.is_file ≡ true)
    × ((c : ℕ) × (stem : Text) × (n ≡ c ∷ stem) × (e.name ≡ c ∷ stem ++ codes ".log"))

of_file :
    (e : DirEntry) (n : Text)
    → is_log_file e ≡ true
    → n ≡ stem_of (split_last_dot e.name)
    → Names e n
unfolding is_log_file Names
of_file e n h same =
    let (file, log) = &&_true e.is_file (is_log (extension e.name)) h in
    let (c, stem, whole) = (is_log-extension e.name).0 log in
    (file, (c, stem, same ∙ stem_of-log e.name c stem whole, whole))

to_file :
    (e : DirEntry) (n : Text)
    → Names e n
    → (is_log_file e ≡ true) × (n ≡ stem_of (split_last_dot e.name))
unfolding is_log_file Names
to_file e n (file, (c, stem, same, whole)) =
    let log = (is_log-extension e.name).1 (c, stem, whole) in
    (rw (file, log) refl, same ∙ sym (stem_of-log e.name c stem whole))

log_names_found : (es : List DirEntry) (n : Text) → Memᴰ n (log_names es) → IsLogName es n
unfolding log_names Names
log_names_found [] n m = elim m [ ]
log_names_found (e ∷ es) n m = elim (Bool-cases (is_log_file e)) [
  | inr other ↦
      let (x, here, f, w) = log_names_found es n (rw other at m) in (x, Memᴰ.tail here, f, w)
  | inl chosen_e ↦ chosen chosen_e (rw chosen_e at m) (log_names_found es n)
]
  where
    chosen :
        is_log_file e ≡ true
        → Memᴰ n (stem_of (split_last_dot e.name) ∷ log_names es)
        → (Memᴰ n (log_names es) → IsLogName es n)
        → IsLogName (e ∷ es) n
    chosen chosen_e (Memᴰ.head same) ih =
        let (f, w) = of_file e n chosen_e same in (e, Memᴰ.head refl, f, w)
    chosen chosen_e (Memᴰ.tail m) ih = let (x, here, f, w) = ih m in (x, Memᴰ.tail here, f, w)

log_names_complete :
    (es : List DirEntry) (n : Text) (x : DirEntry) → Memᴰ x es → Names x n → Memᴰ n (log_names es)
unfolding log_names
log_names_complete [] n x m h = elim m [ ]
log_names_complete (e ∷ es) n x (Memᴰ.head same) h =
    let (chosen_e, stem) = to_file e n (subst (λ y. Names y n) same h) in
    rw chosen_e (Memᴰ.head stem)
log_names_complete (e ∷ es) n x (Memᴰ.tail m) h =
    let rest = log_names_complete es n x m h in
    elim (Bool-cases (is_log_file e)) [
      | inl chosen_e ↦ rw chosen_e (Memᴰ.tail rest)
      | inr other ↦ rw other rest
    ]

mem_insert_sorted :
    (n t : Text) (ts : List Text) → Memᴰ n (insert_sorted t ts) ↔ ((n ≡ t) ⊎ Memᴰ n ts)
unfolding insert_sorted
mem_insert_sorted n t [] = (to_start, λ h. elim h [ inl e ↦ Memᴰ.head e | inr m ↦ Memᴰ.tail m ])
  where
    to_start : Memᴰ n (t ∷ []) → (n ≡ t) ⊎ Memᴰ n []
    to_start (Memᴰ.head e) = inl e
    to_start (Memᴰ.tail m) = inr m
mem_insert_sorted n t (u ∷ ts) = elim (Bool-cases (text_le t u)) [
  | inl e ↦ rw e (start, λ h. elim h [ inl s ↦ Memᴰ.head s | inr m ↦ Memᴰ.tail m ])
  | inr e ↦ rw e (below (mem_insert_sorted n t ts).0, above (mem_insert_sorted n t ts).1)
]
  where
    start : Memᴰ n (t ∷ u ∷ ts) → (n ≡ t) ⊎ Memᴰ n (u ∷ ts)
    start (Memᴰ.head e) = inl e
    start (Memᴰ.tail m) = inr m

    below :
        (Memᴰ n (insert_sorted t ts) → (n ≡ t) ⊎ Memᴰ n ts)
        → Memᴰ n (u ∷ insert_sorted t ts)
        → (n ≡ t) ⊎ Memᴰ n (u ∷ ts)
    below ih (Memᴰ.head e) = inr (Memᴰ.head e)
    below ih (Memᴰ.tail m) = elim (ih m) [ inl e ↦ inl e | inr k ↦ inr (Memᴰ.tail k) ]

    above :
        ((n ≡ t) ⊎ Memᴰ n ts → Memᴰ n (insert_sorted t ts))
        → (n ≡ t) ⊎ Memᴰ n (u ∷ ts)
        → Memᴰ n (u ∷ insert_sorted t ts)
    above ih (inl e) = Memᴰ.tail (ih (inl e))
    above ih (inr (Memᴰ.head e)) = Memᴰ.head e
    above ih (inr (Memᴰ.tail m)) = Memᴰ.tail (ih (inr m))

mem_sort : (n : Text) (ts : List Text) → Memᴰ n (sort ts) ↔ Memᴰ n ts
unfolding sort
mem_sort n [] = (λ m. m, λ m. m)
mem_sort n (t ∷ ts) =
    let here = mem_insert_sorted n t (sort ts) in
    let rest = mem_sort n ts in (λ m. down rest.0 (here.0 m), λ m. here.1 (up rest.1 m))
  where
    down : (Memᴰ n (sort ts) → Memᴰ n ts) → (n ≡ t) ⊎ Memᴰ n (sort ts) → Memᴰ n (t ∷ ts)
    down f (inl e) = Memᴰ.head e
    down f (inr m) = Memᴰ.tail (f m)

    up : (Memᴰ n ts → Memᴰ n (sort ts)) → Memᴰ n (t ∷ ts) → (n ≡ t) ⊎ Memᴰ n (sort ts)
    up f (Memᴰ.head e) = inl e
    up f (Memᴰ.tail m) = inr (f m)

-- The names that are discovered are those of the directory.
pub discover_log_names-IsDirectory :
    (dir : ReadDir) (names : List Text)
    → discover_log_names dir ≡ some names
    → IsDirectory dir names
unfolding discover_log_names Names
discover_log_names-IsDirectory missing names h = sym (some_inj [] names h)
discover_log_names-IsDirectory failed names h = absurd (none_absurd h)
discover_log_names-IsDirectory (entries es) names h =
    subst (λ ns. (n : Text) → Memᴰ n ns ↔ IsLogName es n) (some_inj (sort (log_names es)) names h)
      (λ n.
        let sorted = mem_sort n (log_names es) in
        (
          λ m. log_names_found es n (sorted.0 m),
          λ (e, m, file, name). sorted.1 (log_names_complete es n e m (file, name)),
        ))

-- Nothing is discovered only where the directory cannot be read.
pub discover_log_names-failed : (dir : ReadDir) → discover_log_names dir ≡ none → dir ≡ failed
unfolding discover_log_names
discover_log_names-failed missing h = absurd (none_absurd (sym h))
discover_log_names-failed failed h = refl
discover_log_names-failed (entries es) h = absurd (none_absurd (sym h))
