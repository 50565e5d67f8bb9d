-- ===== src/Process/Registry/Exclusion.antt =====
-- What starts and stops guarantee on every schedule: a name belongs to one process at most
-- (mcproc/src/daemon/process/manager.rs, mcproc/src/daemon/process/registry.rs).
use mathlib.Core.List.{Memᴰ}
use mcproc.Prelude.{◌+◌, ◌≤◌, ◌≡◌, refl, ap, ◌↔◌, true, List, [], ◌∷◌, ◌++◌, arith, IsDistinct}
use mcproc.Names.ProcessKey.{ProcessKey}
use mcproc.Process.Registry.{ProcessRegistry, is_reserved}
use mcproc.Process.Registry
use mcproc.Process.Registry.Schedule.{
  Task, finished, World, Launch, advance, IsFresh, Step, move, start, stop, change, Reach, here,
  next, init,
}
use mcproc.Process.Registry.Ownership.{
  one_if, registered_count, owned_count, owned_count-append, advance-Balanced, advance-IsDistinct,
  change-IsDistinct, registered_count-change,
}

pub record Inv (w : World) : Type 0 where
  pub distinct : IsDistinct w.registry.processes
  pub balanced :
      (k : ProcessKey)
      → owned_count k w.tasks + registered_count k w.registry.processes
        ≡ one_if (is_reserved k w.registry)

init-Inv : Inv init
unfolding Registry.new owned_count registered_count is_reserved
init-Inv = record { distinct = tt; balanced = λ k. refl }

move-Inv :
    (w : World) (before : List Task) (t : Task) (after : List Task) (launch : Launch)
    → w.tasks ≡ before ++ t ∷ after
    → IsFresh launch w.registry
    → Inv w
    → Inv (record {
      registry = (advance launch t w.registry).0;
      tasks = before ++ (advance launch t w.registry).1 ∷ after;
    })
unfolding owned_count
move-Inv w before t after launch e fresh h = record {
  distinct = advance-IsDistinct launch t w.registry h.distinct;
  balanced = λ k.
      let others = owned_count k before + owned_count k after in
      omega (
        arith,
        owned_count-append k before ((advance launch t w.registry).1 ∷ after),
        advance-Balanced k others launch t w.registry h.distinct fresh (
            omega
              (arith, h.balanced k, owned_count-append k before (t ∷ after), ap (owned_count k) e)),
      );
}

Step-Inv : {w u : World} → Step w u → Inv w → Inv u
Step-Inv {w} (move before t after launch e fresh) h = move-Inv w before t after launch e fresh h
Step-Inv (start key) h = record {
  distinct = h.distinct;
  balanced = λ k. unfold owned_count in omega (arith, h.balanced k);
}
Step-Inv (stop id) h = record {
  distinct = h.distinct;
  balanced = λ k. unfold owned_count in omega (arith, h.balanced k);
}
Step-Inv {w} (change id s) h = record {
  distinct = change-IsDistinct id s w.registry.processes h.distinct;
  balanced = λ k.
      unfold is_reserved in
      omega (arith, h.balanced k, registered_count-change k id s w.registry.processes);
}

pub Reach-Inv : {w : World} → Reach init w → Inv w
Reach-Inv here = init-Inv
Reach-Inv (next r s) = Step-Inv s (Reach-Inv r)

-- However starts, stops and changes of status interleave, the launches that hold a name, the removals
-- of it that are not over and the registered processes that have it are one at most in all.
pub exclusive_name :
    (w : World) (k : ProcessKey)
    → Reach init w
    → owned_count k w.tasks + registered_count k w.registry.processes ≤ 1
exclusive_name w k r = ground (arith, (Reach-Inv r).balanced k)

owned_finished :
    (k : ProcessKey) (ts : List Task)
    → ((t : Task) → Memᴰ t ts → t ≡ finished)
    → owned_count k ts ≡ 0
unfolding owned_count
owned_finished k [] h = refl
owned_finished k (t ∷ ts) h =
    rw (h t (Memᴰ.head refl)) (omega (arith, owned_finished k ts (λ u m. h u (Memᴰ.tail m))))

-- When every call is over, a name is reserved exactly if a registered process has it: no failed launch
-- and no removal leaves a reservation behind, and no registered process has lost its own.
pub names_released :
    (w : World) (k : ProcessKey)
    → Reach init w
    → ((t : Task) → Memᴰ t w.tasks → t ≡ finished)
    → (is_reserved k w.registry ≡ true) ↔ (registered_count k w.registry.processes ≡ 1)
names_released w k r over = ground (arith, (Reach-Inv r).balanced k, owned_finished k w.tasks over)
