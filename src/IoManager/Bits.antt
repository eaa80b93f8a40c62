-- ===== src/IoManager/Bits.antt =====
-- The sets of events as the numbers that IOManager.h and IOManager.cpp keep them in, with their bit
-- operations.
use my_coroutine.Common.{
  ℕ, zero, suc, ◌+◌, ◌-◌, ◌<◌, ◌^◌, ◌≡◌, refl, Bool, true, false, not, ◌&&◌, ◌||◌, ◌==◌, arith,
  if◌then◌else◌,
}
use Prim.Native.Nat.{bit_and, bit_or}
use my_coroutine.IoManager.{EpollEvent, real_events, meets, minus}
use my_coroutine.IoManager.FdContexts.{
  Event, none_event, read, write, Events, is_any, has, with_event, without,
}

-- enum Event
abbrev pub event_bits : Event → ℕ
event_bits none_event = 0x0
event_bits read = 0x1
event_bits write = 0x4

-- The number that stands for a set of events
abbrev pub set_bits : Events → ℕ
set_bits events = (if events.reads then 0x1 else 0) + (if events.writes then 0x4 else 0)

-- EPOLLIN, EPOLLOUT, EPOLLERR, EPOLLHUP
abbrev pub epoll_in_bit : ℕ
epoll_in_bit = 0x1

abbrev pub epoll_out_bit : ℕ
epoll_out_bit = 0x4

abbrev pub epoll_err_bit : ℕ
epoll_err_bit = 0x8

abbrev pub epoll_hup_bit : ℕ
epoll_hup_bit = 0x10

-- `a & b` as a condition, and `~a`, on 32 bits
abbrev pub any_bit : ℕ → ℕ → Bool
any_bit a b = not (bit_and a b == 0)

abbrev pub complement : ℕ → ℕ
complement a = 2 ^ 32 - 1 - a

-- The flags of the epoll_event with those that an error or a hang-up adds
abbrev pub reported_bits : ℕ → ℕ → ℕ
reported_bits flags events =
    if any_bit flags (bit_or epoll_err_bit epoll_hup_bit)
    then bit_or flags (bit_and (bit_or epoll_in_bit epoll_out_bit) events)
    else flags

-- real_events and left_events
abbrev pub real_bits : ℕ → ℕ → ℕ
real_bits flags events =
    let reported = reported_bits flags events in
    let real = if any_bit reported epoll_in_bit then bit_or 0 (event_bits read) else 0 in
    if any_bit reported epoll_out_bit then bit_or real (event_bits write) else real

abbrev pub left_bits : ℕ → ℕ → ℕ
left_bits events real = bit_and events (complement real)

-- The epoll_event of the context with these flags
abbrev pub epoll_event : ℕ → ℕ → EpollEvent
epoll_event index flags = record {
  index = index;
  epoll_in = any_bit flags epoll_in_bit;
  epoll_out = any_bit flags epoll_out_bit;
  err_or_hup = any_bit flags (bit_or epoll_err_bit epoll_hup_bit);
}

-- The set of the two flags
abbrev events_of : Bool → Bool → Events
events_of r w = record { reads = r; writes = w }

event_bits_lem :
    (event : Event) (r w : Bool)
    → let events = events_of r w in
      (any_bit (set_bits events) (event_bits event) ≡ has event events)
      × (bit_or (set_bits events) (event_bits event) ≡ set_bits (with_event event events))
      × (bit_and (set_bits events) (complement (event_bits event))
          ≡ set_bits (without event events))
event_bits_lem none_event true true = (refl, refl, refl)
event_bits_lem none_event true false = (refl, refl, refl)
event_bits_lem none_event false true = (refl, refl, refl)
event_bits_lem none_event false false = (refl, refl, refl)
event_bits_lem read true true = (refl, refl, refl)
event_bits_lem read true false = (refl, refl, refl)
event_bits_lem read false true = (refl, refl, refl)
event_bits_lem read false false = (refl, refl, refl)
event_bits_lem write true true = (refl, refl, refl)
event_bits_lem write true false = (refl, refl, refl)
event_bits_lem write false true = (refl, refl, refl)
event_bits_lem write false false = (refl, refl, refl)

-- What the reports have to agree on, as a test
abbrev same_bool : Bool → Bool → Bool
same_bool a b = (a && b) || (not a && not b)

unfoldable agrees : Bool → Bool → ℕ → Bool
agrees r w flags =
    let events = events_of r w in
    let real = real_events (epoll_event 0 flags) events in
    let bits = real_bits flags (set_bits events) in
    (bits == set_bits real)
    && same_bool (bit_and (set_bits events) bits == 0) (not (meets events real))
    && (left_bits (set_bits events) bits == set_bits (minus events real))

-- A test at each number below a bound
unfoldable passes_below : ℕ → (ℕ → Bool) → Bool
passes_below zero test = true
passes_below (suc n) test = test n && passes_below n test

passes_below_lem :
    (n : ℕ) (test : ℕ → Bool) (k : ℕ) → passes_below n test ≡ true → k < n → test k ≡ true
unfolding passes_below
passes_below_lem zero test k h below = absurd (omega arith)
passes_below_lem (suc n) test k h below = ground (arith, passes_below_lem n test k)

agrees_lem : (r w : Bool) → passes_below 32 (agrees r w) ≡ true
unfolding passes_below agrees
agrees_lem true true = refl
agrees_lem true false = refl
agrees_lem false true = refl
agrees_lem false false = refl

parts :
    (a b : ℕ) (c d : Bool) (e f : ℕ)
    → ((a == b) && same_bool c d && (e == f)) ≡ true
    → (a ≡ b) × (c ≡ d) × (e ≡ f)
parts a b true true e f h = (ground (arith, h), refl, ground (arith, h))
parts a b false false e f h = (ground (arith, h), refl, ground (arith, h))
parts a b true false e f h = absurd (ground (arith, h))
parts a b false true e f h = absurd (ground (arith, h))

-- For any event, any set of events of a context, and flags that epoll reports, below 32: the tests
-- and changes of the set are the bit operations of the source on the numbers that stand for it
-- (READ 1, WRITE 4): & as a condition, |, & with the complement on 32 bits, and the number as a
-- condition; and so are the events that idle finds in the flags after an error or a hang-up has
-- added those of the set, the test whether they meet the set, and the events that are left.
pub event_sets :
    (event : Event) (events : Events) (index flags : ℕ)
    → flags < 32
    → let bits = set_bits events in
      let real = real_events (epoll_event index flags) events in
      (any_bit bits (event_bits event) ≡ has event events)
      × (bit_or bits (event_bits event) ≡ set_bits (with_event event events))
      × (bit_and bits (complement (event_bits event)) ≡ set_bits (without event events))
      × (not (bits == 0) ≡ is_any events)
      × (real_bits flags bits ≡ set_bits real)
      × ((bit_and bits (real_bits flags bits) == 0) ≡ not (meets events real))
      × (left_bits bits (real_bits flags bits) ≡ set_bits (minus events real))
unfolding agrees
event_sets event events index flags small =
    let (tests, adds, clears) = event_bits_lem event events.reads events.writes in
    let bits : ℕ = set_bits events in
    let real : Events = real_events (epoll_event index flags) events in
    let (reported, met, left) =
      parts (real_bits flags bits) (set_bits real) (bit_and bits (real_bits flags bits) == 0)
        (not (meets events real)) (left_bits bits (real_bits flags bits))
        (set_bits (minus events real))
        (passes_below_lem 32 (agrees events.reads events.writes) flags
          (agrees_lem events.reads events.writes) small) in
    (tests, adds, clears, ground arith, reported, met, left)
