-- ===== src/IoManager/Initial.antt =====
-- The contexts that the constructor of IOManager makes.
use my_coroutine.Common.{ℕ, zero, suc, ◌+◌, ◌≡◌, refl, sym, some, [], arith, get_elem?}
use my_coroutine.IoManager.{io_manager, resize_from}
use my_coroutine.IoManager.FdContexts.{FdContext, new_context}
use my_coroutine.IoManager.Validity.{ValidContext, Valid, registered}

new_context-ValidContext : (i : ℕ) → ValidContext (new_context i)
new_context-ValidContext i = record {
  read_blank = λ h. refl;
  write_blank = λ h. refl;
  read_set = λ h. cc;
  write_set = λ h. cc;
}

get_elem?-resize_from :
    (i size n : ℕ) (c : FdContext)
    → get_elem? (resize_from i size []) n ≡ some c
    → c ≡ new_context (i + n)
unfolding resize_from
get_elem?-resize_from i zero n c e = cc
get_elem?-resize_from i (suc size) zero c e = ground (arith, e)
get_elem?-resize_from i (suc size) (suc n) c e =
    ground (arith, get_elem?-resize_from (suc i) size n c e)

registered-resize_from : (i size : ℕ) → registered (resize_from i size []) ≡ 0
unfolding resize_from registered
registered-resize_from i zero = refl
registered-resize_from i (suc size) = omega (arith, registered-resize_from (suc i) size)

-- In the state that the constructor leaves, all contexts are valid and no event is pending.
pub io_manager-Valid : Valid io_manager
unfolding io_manager
io_manager-Valid = record {
  contexts_valid =
      λ n c e. rw (get_elem?-resize_from 0 32 n c e) (new_context-ValidContext (0 + n));
  counted = sym (registered-resize_from 0 32);
  watches = λ n c e. rw (get_elem?-resize_from 0 32 n c e) refl;
  small = omega arith;
}
