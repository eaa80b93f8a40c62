-- ===== src/Hook/Direct.antt =====
-- do_io of Hook.cpp where it hands the call to the original function.
use my_coroutine.Common.{ℕ, Bool, length, ltb}
use my_coroutine.Hook.{World}

-- A descriptor that the table has a context for.
abbrev pub is_within : ℕ → World → Bool
is_within n w = ltb n (length w.fds.datas)
