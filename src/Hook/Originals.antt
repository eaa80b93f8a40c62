-- ===== src/Hook/Originals.antt =====
-- The pointers to the original functions, and how Hook.cpp sets them: hook_init and _HookIniter.
use my_coroutine.Common.{ℕ, ◌≡◌, refl, Bool, false, Option, none, if◌then◌else◌}
use my_coroutine.Common.Int.{ℤ, negsuc}
use my_coroutine.Hook.Calls.{connect_timeout}

-- HOOK_FUN
pub data HookFun : Type 0 where
  sleep_fun socket_fun connect_fun accept_fun : HookFun
  read_fun readv_fun recv_fun recvfrom_fun recvmsg_fun : HookFun
  write_fun writev_fun send_fun sendto_fun sendmsg_fun : HookFun
  close_fun fcntl_fun ioctl_fun getsockopt_fun setsockopt_fun : HookFun

-- `found` holds the pointers, null at first; `is_inited` and `timeout` are the variables is_inited and
-- s_connect_timeout.
pub record Originals : Type 0 where
  pub is_inited : Bool
  pub found : HookFun → Option ℕ
  pub timeout : ℤ

abbrev pub no_originals : Originals
no_originals = record { is_inited = false; found = λ _. none; timeout = negsuc 0 }

-- hook_init; `dlsym` finds the next definition of a name.
unfoldable pub hook_init : (HookFun → Option ℕ) → Originals → Originals
hook_init dlsym o = if o.is_inited then o else record o { found = dlsym }

-- _HookIniter()
unfoldable pub hook_initer : (HookFun → Option ℕ) → Originals → Originals
unfolding hook_init
hook_initer dlsym o = record (hook_init dlsym o) { timeout = connect_timeout }

-- Before main, every pointer is set, connect has its timeout, and is_inited still says that nothing
-- has been done, so that another hook_init looks the functions up again.
hook_initer_lem :
    (dlsym again : HookFun → Option ℕ)
    → let o = hook_initer dlsym no_originals in
      (o ≡ record { is_inited = false; found = dlsym; timeout = connect_timeout })
      × ((hook_init again o).found ≡ again)
unfolding hook_initer
hook_initer_lem dlsym again = (refl, refl)
