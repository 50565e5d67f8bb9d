-- ===== src/Api/Listing.antt =====
-- What the list of processes holds (`list_processes_impl` of
-- mcproc/src/daemon/api/grpc/process_handlers.rs).
use mathlib.Core.List.{Memᴰ}
use mcproc.Prelude.{
  ◌≡◌, refl, sym, ap, ◌∙◌, ◌↔◌, inl, inr, Bool, true, List, [], ◌∷◌, map, filter, Option, none,
  some, ℤ, pos, negsuc, is_nat, Text, text_eq, text_eq_iff, Bool-cases, Option-cases, ==_iff, arith,
  some_inj, ℕ,
}
use mcproc.Process.Status.{
  ProtoStatus, ProcessStatus, starting, running, stopping, stopped, failed, to_proto, proto_number,
  proto_try_from, convert_process_status,
}
use mcproc.Process.Proxy.{ProxyInfo, get_status}
use mcproc.Process.Registry.{ProcessRegistry, get_all_processes}
use mcproc.Api.Status.{Answer, ok, err, invalid_argument, validate_status_filter}
use mcproc.Api.Info.{ProcessInfo, Around, create_process_info}
use mcproc.Api.Handlers.{
  matches_status_filter, in_project, with_status, plain_info, list_processes_impl,
}

mem_of_filter {ℓ} :
    {A : Type ℓ} (f : A → Bool) (xs : List A) (x : A)
    → Memᴰ x (filter f xs)
    → Memᴰ x xs × (f x ≡ true)
mem_of_filter f [] x m = elim m [ ]
mem_of_filter f (y ∷ ys) x m = elim (Bool-cases (f y)) [
  | inl e ↦ chosen e (rw e at m) (mem_of_filter f ys x)
  | inr e ↦ let (n, h) = mem_of_filter f ys x (rw e at m) in (Memᴰ.tail n, h)
]
  where
    chosen :
        f y ≡ true
        → Memᴰ x (y ∷ filter f ys)
        → (Memᴰ x (filter f ys) → Memᴰ x ys × (f x ≡ true))
        → Memᴰ x (y ∷ ys) × (f x ≡ true)
    chosen e (Memᴰ.head same) ih = (Memᴰ.head same, ap f same ∙ e)
    chosen e (Memᴰ.tail m) ih = let (n, h) = ih m in (Memᴰ.tail n, h)

mem_to_filter {ℓ} :
    {A : Type ℓ} (f : A → Bool) (xs : List A) (x : A)
    → Memᴰ x xs
    → f x ≡ true
    → Memᴰ x (filter f xs)
mem_to_filter f [] x m h = elim m [ ]
mem_to_filter f (y ∷ ys) x (Memᴰ.head same) h =
    let e : f y ≡ true = sym (ap f same) ∙ h in rw e (Memᴰ.head same)
mem_to_filter f (y ∷ ys) x (Memᴰ.tail m) h = elim (Bool-cases (f y)) [
  | inl e ↦ rw e (Memᴰ.tail (mem_to_filter f ys x m h))
  | inr e ↦ rw e (mem_to_filter f ys x m h)
]

pub mem_filter {ℓ} :
    {A : Type ℓ} (f : A → Bool) (xs : List A) (x : A)
    → Memᴰ x (filter f xs) ↔ (Memᴰ x xs × (f x ≡ true))
mem_filter f xs x = (mem_of_filter f xs x, λ (m, h). mem_to_filter f xs x m h)

is_nat_iff : (k : ℕ) (n : ℤ) → (is_nat k n ≡ true) ↔ (pos k ≡ n)
is_nat_iff k (pos m) = (λ h. ap pos (sym ((==_iff m k).0 h)), λ e. (==_iff m k).1 (nat_of e))
  where
    or_zero : ℤ → ℕ
    or_zero (pos n) = n
    or_zero (negsuc n) = 0

    nat_of : pos k ≡ pos m → m ≡ k
    nat_of e = sym (ap or_zero e)
is_nat_iff k (negsuc m) = (λ h. absurd (ground arith), λ e. absurd (ground arith))

-- The number that a report shows for a state is the one that the filter asks for.
matches_status_filter-number :
    (s : ProcessStatus) (n : ℤ)
    → (matches_status_filter s n ≡ true) ↔ (pos (convert_process_status s) ≡ n)
unfolding matches_status_filter to_proto proto_number convert_process_status
matches_status_filter-number starting n = is_nat_iff 1 n
matches_status_filter-number running n = is_nat_iff 2 n
matches_status_filter-number stopping n = is_nat_iff 3 n
matches_status_filter-number stopped n = is_nat_iff 4 n
matches_status_filter-number failed n = is_nat_iff 5 n

-- A process that the request asks for: one of the project, if there is one, whose report shows the number
-- of the state, if there is one.
abbrev pub IsAsked : Around → Option Text → Option ℤ → ProcessRegistry → ProxyInfo → Type 0
IsAsked a project number r p =
    Memᴰ p (get_all_processes r)
    × ((q : Text) → project ≡ some q → p.project ≡ q)
    × ((n : ℤ) → number ≡ some n → pos (plain_info a p).status ≡ n)

in_project-asked :
    (project : Option Text) (ps : List ProxyInfo) (p : ProxyInfo)
    → Memᴰ p (in_project project ps) ↔ (Memᴰ p ps × ((q : Text) → project ≡ some q → p.project ≡ q))
unfolding in_project
in_project-asked none ps p = (λ m. (m, λ q e. absurd (ground arith)), λ (m, h). m)
in_project-asked (some project) ps p =
    let f : ProxyInfo → Bool = λ (x : ProxyInfo). text_eq x.project project in
    (
      λ m.
          let (n, h) = (mem_filter f ps p).0 m in
          (n, λ q e. (text_eq_iff p.project project).0 h ∙ some_inj project q e),
      λ (m, h). (mem_filter f ps p).1 (m, (text_eq_iff p.project project).1 (h project refl)),
    )

refuses : (n : ℤ) → proto_try_from n ≡ none → validate_status_filter n ≡ some invalid_argument
unfolding validate_status_filter
refuses n e = rw (e, validate_status_filter) refl

accepts : (n : ℤ) (s : ProtoStatus) → proto_try_from n ≡ some s → validate_status_filter n ≡ none
unfolding validate_status_filter
accepts n s e = rw (e, validate_status_filter) refl

with_status-asked :
    (a : Around) (n : ℤ) (ps : List ProxyInfo) (p : ProxyInfo)
    → Memᴰ p (with_status n ps) ↔ (Memᴰ p ps × (pos (plain_info a p).status ≡ n))
unfolding with_status plain_info create_process_info
with_status-asked a n ps p =
    let f : ProxyInfo → Bool = λ (x : ProxyInfo). matches_status_filter (get_status x) n in
    let number = matches_status_filter-number (get_status p) n in
    (
      λ m. let (k, h) = (mem_filter f ps p).0 m in (k, number.0 h),
      λ (m, h). (mem_filter f ps p).1 (m, number.1 h),
    )

-- What an answer is: exactly the processes that are asked for, with what is reported of each, where the
-- number, if there is one, is that of a state; or a refusal, for a number that is no state.
abbrev pub Lists :
    Around → Option Text → Option ℤ → ProcessRegistry → Answer (List ProcessInfo) → Type 0
Lists a project number r (ok infos) =
    (ps : List ProxyInfo) × (infos ≡ map (plain_info a) ps)
    × ((p : ProxyInfo) → Memᴰ p ps ↔ IsAsked a project number r p)
    × ((n : ℤ) → number ≡ some n → (s : ProtoStatus) × (proto_try_from n ≡ some s))
Lists a project number r (err status) =
    (status ≡ invalid_argument) × ((n : ℤ) × (number ≡ some n) × (proto_try_from n ≡ none))

-- The list of processes: exactly those that are asked for, by the project and by the number of the state as
-- the reports show it. A number is refused as an invalid argument if, and only if, the protocol does not
-- define it.
pub list_processes_impl-Lists :
    (a : Around) (project : Option Text) (number : Option ℤ) (r : ProcessRegistry)
    → Lists a project number r (list_processes_impl a project number r)
unfolding list_processes_impl
list_processes_impl-Lists a project none r = (
  in_project project (get_all_processes r),
  refl,
  λ p.
      let both = in_project-asked project (get_all_processes r) p in
      (
        λ m. let (n, h) = both.0 m in (n, h, λ n e. absurd (ground arith)),
        λ (m, h, k). both.1 (m, h),
      ),
  λ n e. absurd (ground (arith, e)),
)
list_processes_impl-Lists a project (some n) r = elim (Option-cases (proto_try_from n)) [
  | inl e ↦ rw (refuses n e, list_processes_impl) (refl, (n, refl, e))
  | inr (s, e) ↦
      rw (accepts n s e, list_processes_impl)
        (
          with_status n (in_project project (get_all_processes r)),
          refl,
          λ p.
              let both = in_project-asked project (get_all_processes r) p in
              let state = with_status-asked a n (in_project project (get_all_processes r)) p in
              (
                λ m.
                    let (k, h) = state.0 m in
                    let (j, i) = both.0 k in (j, i, λ o same. h ∙ some_inj n o same),
                λ (m, h, k). state.1 (both.1 (m, h), k n refl),
              ),
          λ o same. (s, ap proto_try_from (sym (some_inj n o same)) ∙ e),
        )
]
