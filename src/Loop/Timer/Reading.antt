-- ===== src/Loop/Timer/Reading.antt =====
-- The constructor of src/timer/timer.cpp, and the callback that it gives to the timer's descriptor. What
-- the kernel gives is an argument: the descriptor, and what `read` made of it. `none` is an exception.
use reactor_learn.Prelude.{
  true, ◌∙◌, ℕ, zero, suc, ◌≤◌, ◌<◌, ◌≡◌, ◌^◌, refl, ap, Bool, false, Option, none, some, List, [],
  ◌∷◌, ◌||◌, ◌==◌, if◌then◌else◌, length, replicate, length-replicate,
}
use reactor_learn.Buffer.{Io, failed, done}
use reactor_learn.Net.Channel.{
  Channel, Epoll, k_read, watched, construct, add_channel, set_active, remove_from_loop,
}
use reactor_learn.Net.Channel.Registration.{Registered, channel_life}
use reactor_learn.Loop.Timer.{Timer, slot, tick, ticks}
use reactor_learn.Loop.Timer.Wheel.{has, Event, ticks_once, event, events}
use reactor_learn.Loop.Timer.Gone.{tick_count, IsSilent, events-gone}

-- `Timer(owner, heartbeat_num, timeslice)`, with what `timerfd_create` gave, and whether `epoll_ctl`
-- succeeds in adding and in changing the descriptor; its read callback is `on_timer`.
unfoldable pub construct_timer :
    (added changed : Bool) → ℕ → Option ℕ → Epoll → Option (Timer × Channel × Epoll)
unfolding construct set_active
construct_timer added changed heartbeat_num none e = none
construct_timer added changed heartbeat_num (some timerfd) e =
    let (channel, e1) = construct added e timerfd in
    let (timer_channel, e2) = set_active changed e1 channel k_read in
    some (
      record { timerwheel = replicate heartbeat_num []; ptr = 0; last_insert_pos = λ object. none },
      timer_channel,
      e2,
    )

-- `~Timer`: what the kernel watches then, and the descriptors that are closed.
unfoldable pub destroy_timer : Bool → Epoll → Channel → Epoll × List ℕ
unfolding remove_from_loop
destroy_timer ok e channel =
    if channel.fd == 0 then (e, []) else ((remove_from_loop ok e channel).1, channel.fd ∷ [])

-- `EAGAIN` (also `EWOULDBLOCK`) and `EINTR`
abbrev is_no_failure : ℕ → Bool
is_no_failure errno = errno == 11 || errno == 4

-- The read callback: `read` gave an error number, or how many bytes, and the number that they hold.
unfoldable pub on_timer : Io (ℕ × ℕ) → Timer → Option Timer
unfolding ticks
on_timer (failed errno) t = if is_no_failure errno then some t else none
on_timer (done (n, times)) t = if n == 8 then some (ticks times t) else none

-- Ticks alone, as events.
many_ticks : ℕ → List Event
many_ticks zero = []
many_ticks (suc n) = ticks_once ∷ many_ticks n

events-many_ticks : (n : ℕ) (t : Timer) → events (many_ticks n) t ≡ ticks n t
unfolding many_ticks events event ticks
events-many_ticks zero t = refl
events-many_ticks (suc n) t = events-many_ticks n (tick t)

tick_count-many_ticks : (n : ℕ) → tick_count (many_ticks n) ≡ n
unfolding many_ticks
tick_count-many_ticks zero = refl
tick_count-many_ticks (suc n) = ap suc (tick_count-many_ticks n)

many_ticks-IsSilent : (object n : ℕ) → IsSilent object (many_ticks n)
unfolding many_ticks
many_ticks-IsSilent object zero = tt
many_ticks-IsSilent object (suc n) = many_ticks-IsSilent object n

-- A loop that comes to its timer's descriptor only after as many time slices as the wheel has slots,
-- fewer than 2 ^ 31, drops every heartbeat at once: the callback throws nothing, and no slot holds any
-- object any more.
pub on_timer-late :
    (m times : ℕ) (t : Timer)
    → length t.timerwheel ≡ suc m
    → t.ptr < suc m
    → m < 2 ^ 31
    → suc m ≤ times
    → (t' : Timer) × (on_timer (done (8, times)) t ≡ some t')
      × ((object place : ℕ) → place < suc m → has object (slot t'.timerwheel place) ≡ false)
unfolding on_timer
on_timer-late m times t size inside small late = (
  ticks times t,
  refl,
  λ object place h. rw (← events-many_ticks times t) (
      events-gone object m t (many_ticks times) place size inside small
        (many_ticks-IsSilent object times) (rw (tick_count-many_ticks times) late) h),
)

construct-fd : (e : Epoll) (fd : ℕ) → (construct true e fd).0.fd ≡ fd
unfolding construct add_channel
construct-fd e fd = refl

-- A timer's life while `epoll_ctl` succeeds, for a descriptor that is not 0: the wheel has as many slots
-- as it is told, with the pointer at one of them, the kernel watches the descriptor for input, and after
-- the destructor it does not watch it, and the descriptor is closed once.
pub construct_timer-destroy_timer :
    (heartbeat_num timerfd : ℕ) (e : Epoll)
    → 0 < heartbeat_num
    → (timerfd == 0) ≡ false
    → (t : Timer) × (c : Channel) × (e' : Epoll) × (construct_timer true true heartbeat_num
          (some timerfd)
          e
        ≡ some (t, c, e'))
      × ((length t.timerwheel ≡ heartbeat_num) × (t.ptr < heartbeat_num))
      × (Registered e' c × (c.events ≡ k_read))
      × (let (e2, closed) = destroy_timer true e' c in
          (watched timerfd e2.interest ≡ none) × (closed ≡ timerfd ∷ []))
unfolding construct_timer destroy_timer
construct_timer-destroy_timer heartbeat_num timerfd e h nonzero =
    let (made, active, gone) = channel_life e timerfd k_read in
    let (made_channel, e1) = construct true e timerfd in
    let (c, e2) = set_active true e1 made_channel k_read in
    let fd : c.fd ≡ timerfd = active.2 ∙ construct-fd e timerfd in
    (
      _,
      c,
      e2,
      refl,
      (length-replicate heartbeat_num [], h),
      (active.0, active.1),
      rw (fd, nonzero) (rw fd at gone.1, refl),
    )
