-- ===== src/FdManager.antt =====
-- FdManager.h and FdManager.cpp: the contexts of file descriptors and the table of them. A context is
-- a shared object, so the table holds addresses. The kernel's answers are a parameter.
pub mod Context
pub mod Table
use my_coroutine.Common.{
  ℕ, ◌+◌, ◌/◌, Bool, true, false, not, ◌||◌, Option, none, some, List, [], ◌∷◌, ◌==◌, leb, is_some,
  if◌then◌else◌, length, get_elem?, set, resize, Result, ok, err, out_of_bounds,
}
use my_coroutine.Common.Int.{ℤ, pos, negsuc, leb_ℤ, eqb_ℤ}
use Context.{Kernel, FdCtx, fd_ctx}

-- `datas` is `m_datas`: null or the address of a context. `heap` is the memory of the contexts.
pub record FdManager : Type 0 where
  pub datas : List (Option ℕ)
  pub heap : ℕ → FdCtx

abbrev pub put : (ℕ → FdCtx) → ℕ → FdCtx → ℕ → FdCtx
put heap p c q = if p == q then c else heap q

-- m_datas[fd]: `none` is out of bounds, where the access is undefined.
abbrev pub at {ℓ} : {A : Type ℓ} → List A → ℤ → Option A
at xs (pos n) = get_elem? xs n
at xs (negsuc n) = none

abbrev pub set_at {ℓ} : {A : Type ℓ} → List A → ℤ → A → List A
set_at xs (pos n) a = set xs n a
set_at xs (negsuc n) a = xs

abbrev pub size_le : List (Option ℕ) → ℤ → Bool
size_le datas fd = leb_ℤ (pos (length datas)) fd

-- resize(fd * 1.5): a negative argument is a huge size, which the code never asks for.
abbrev pub resize_for : ℤ → List (Option ℕ) → List (Option ℕ)
resize_for (pos n) datas = resize (n + n / 2) none datas
resize_for (negsuc n) datas = datas

-- FdManager()
unfoldable pub fd_manager : (ℕ → FdCtx) → FdManager
fd_manager heap = record { datas = resize 64 none []; heap = heap }

-- get, from the write lock on: a new context, at the address `p`, replaces the entry.
unfoldable pub create : Kernel → ℕ → ℤ → FdManager → Result (Option ℕ × FdManager)
unfolding fd_ctx
create k p fd m =
    let datas = if size_le m.datas fd then resize_for fd m.datas else m.datas in
    elim (at datas fd) [
      | none ↦ err out_of_bounds
      | some _ ↦ ok (
        some p,
        record m { datas = set_at datas fd (some p); heap = put m.heap p (fd_ctx k fd).1 },
      )
    ]

-- get(fd, auto_create): the pointer and the table.
unfoldable pub get : Kernel → ℕ → ℤ → Bool → FdManager → Result (Option ℕ × FdManager)
unfolding create
get k p fd auto_create m =
    if eqb_ℤ fd (negsuc 0)
    then ok (none, m)
    else if size_le m.datas fd
    then (if not auto_create then ok (none, m) else elim (at m.datas fd) [
      | none ↦ err out_of_bounds
      | some entry ↦ if is_some entry || not auto_create then ok (entry, m) else create k p fd m
    ])
    else create k p fd m

-- del(fd)
unfoldable pub del : ℤ → FdManager → Result FdManager
del fd m = if size_le m.datas fd then ok m else elim (at m.datas fd) [
  | none ↦ err out_of_bounds
  | some _ ↦ ok (record m { datas = set_at m.datas fd none })
]
