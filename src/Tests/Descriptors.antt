-- ===== src/Tests/Descriptors.antt =====
-- A table of 64 entries, on a kernel where the descriptors below 8 are blocking sockets.
use my_coroutine.Common.{false, ◌≡◌, none, some, ltb, ok}
use my_coroutine.Common.Int.{pos, negsuc}
use my_coroutine.FdManager.{FdManager, fd_manager, get}
use my_coroutine.FdManager.Context.{Kernel, FdCtx, unlimited}
use my_coroutine.FdManager.Table.{replaced, get_lem}

abbrev pub kernel : Kernel
kernel = record {
  fstat = λ fd. elim fd [ pos n ↦ some (ltb n 8) | negsuc n ↦ none ];
  nonblock = λ fd. false;
}

abbrev pub no_ctx : FdCtx
no_ctx = record {
  is_init = false;
  is_socket = false;
  sys_no_block = false;
  user_no_block = false;
  is_closed = false;
  fd = pos 0;
  recv_timeout = unlimited;
  send_timeout = unlimited;
}

abbrev pub table : FdManager
table = fd_manager (λ _. no_ctx)

get_lem_example : get kernel 100 (pos 5) false table ≡ ok (some 100, replaced kernel 100 5 table)
unfolding fd_manager
get_lem_example = get_lem kernel 100 5 false table
