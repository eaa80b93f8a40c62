-- ===== src/FdManager/Table.antt =====
-- FdManager::get and FdManager::del on every branch.
use my_coroutine.Common.{
  ℕ, suc, ◌<◌, ◌≤◌, ◌≡◌, refl, Bool, false, none, some, arith, ◌==◌, if◌then◌else◌, length,
  get_elem?, set, ok, err, Returns, ltb, out_of_bounds, get_elem?-some, get_elem?-none, length-set,
  get_elem?-set, set_beyond,
}
use native.Mathlib.Decide.{dec_lt}
use my_coroutine.Common.Int.{ℤ, pos, negsuc}
use my_coroutine.FdManager.{FdManager, get, del, put}
use my_coroutine.FdManager.Context.{
  Kernel, FdCtx, fd_ctx, set_timeout, get_timeout, unlimited, fd_ctx_lem,
}

-- What `get` leaves after it has made a context.
abbrev pub replaced : Kernel → ℕ → ℕ → FdManager → FdManager
replaced k p n m = record m {
  datas = set m.datas n (some p);
  heap = put m.heap p (fd_ctx k (pos n)).1;
}

-- A descriptor within the table gets a new context, whatever the table holds and whether or not
-- one may be made: the context that was there is replaced.
pub get_in_range :
    (k : Kernel) (p n : ℕ) (auto_create : Bool) (m : FdManager)
    → n < length m.datas
    → get k p (pos n) auto_create m ≡ ok (some p, replaced k p n m)
unfolding get
get_in_range k p n auto_create m h = ground (arith, get_elem?-some m.datas n h)

-- Beyond the table `get` returns null, or, where it may make a context, reads out of bounds.
pub get_beyond :
    (k : Kernel) (p n : ℕ) (auto_create : Bool) (m : FdManager)
    → length m.datas ≤ n
    → get k p (pos n) auto_create m ≡ (if auto_create then err out_of_bounds else ok (none, m))
unfolding get
get_beyond k p n auto_create m h = ground (arith, get_elem?-none m.datas n (omega arith))

-- get of a descriptor within the table returns a new context that replaces the one that was there,
-- whether or not one may be made; beyond the table it returns null, or, where a context may be
-- made, reads out of bounds.
pub get_lem :
    (k : Kernel) (p n : ℕ) (auto_create : Bool) (m : FdManager)
    → get k p (pos n) auto_create m ≡ (
        if ltb n (length m.datas)
        then ok (some p, replaced k p n m)
        else if auto_create
        then err out_of_bounds
        else ok (none, m))
get_lem k p n auto_create m = elim (dec_lt n (length m.datas)) [
  | yes within ↦ rw (get_in_range k p n auto_create m within) (ground arith)
  | no beyond ↦ rw (get_beyond k p n auto_create m (omega arith)) (ground arith)
]

new_timeout :
    (heap : ℕ → FdCtx) (k : Kernel) (q type : ℕ) (fd : ℤ)
    → get_timeout type (put heap q (fd_ctx k fd).1 q) ≡ unlimited
new_timeout heap k q type fd = ground (arith, (fd_ctx_lem k fd).4 type)

-- Whatever timeout has been set through a context, the next get for a descriptor within the table
-- returns a context with no timeout.
timeout_forgotten :
    (k : Kernel) (p q n type : ℕ) (t : ℤ) (m : FdManager)
    → n < length m.datas
    → Returns
        (λ r. (r.0 ≡ some q) × (get_timeout type (r.1.heap q) ≡ unlimited))
        (get k q (pos n) false (record m { heap = put m.heap p (set_timeout type t (m.heap p)) }))
timeout_forgotten k p q n type t m h =
    let heap = put m.heap p (set_timeout type t (m.heap p)) in
    rw (get_in_range k q n false (record m { heap = heap }) h)
      (refl, new_timeout heap k q type (pos n))

pub del-set : (n : ℕ) (m : FdManager) → del (pos n) m ≡ ok (record m { datas = set m.datas n none })
unfolding del
del-set n m = ground (arith, get_elem?-some m.datas n, set_beyond m.datas n none)

-- del of a descriptor that is not negative returns, empties the entry of the descriptor within the
-- table and no other, and keeps the size of the table.
del_lem :
    (n : ℕ) (m : FdManager)
    → Returns
        (λ r.
          (length r.datas ≡ length m.datas)
          × ((i : ℕ)
              → get_elem? r.datas i ≡ (
                  if i == n
                  then (if ltb n (length m.datas) then some none else none)
                  else get_elem? m.datas i)))
        (del (pos n) m)
del_lem n m = rw (del-set n m) (length-set m.datas n none, λ i. get_elem?-set m.datas n i none)

-- A descriptor below -1 is out of bounds for both, and -1 for `del`.
pub negative_faults :
    (k : Kernel) (p n : ℕ) (auto_create : Bool) (m : FdManager)
    → (get k p (negsuc (suc n)) auto_create m ≡ err out_of_bounds)
      × (del (negsuc n) m ≡ err out_of_bounds)
unfolding get del
negative_faults k p n auto_create m = (ground arith, ground arith)
