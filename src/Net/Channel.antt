-- ===== src/Net/Channel.antt =====
-- src/channel.cpp and src/epoll.cpp: a channel's events, its registration with the epoll instance of a
-- loop, and the callbacks that it runs. A pointer to a loop is the loop's number. What `epoll_ctl`
-- answers is an argument: whether it succeeded. These run in the loop's thread; from another thread
-- the code hands the same call over to the loop.
pub mod Registration
use reactor_learn.Prelude.{
  ℕ, Bool, true, false, Option, none, some, List, [], ◌∷◌, ◌++◌, ◌||◌, ◌&&◌, not, ◌==◌,
  if◌then◌else◌,
}

-- The bits of the event masks that the code uses.
pub record Events : Type 0 where
  pub input : Bool
  pub output : Bool
  pub error : Bool
  pub rdhup : Bool
  pub hup : Bool

abbrev pub no_events : Events
no_events = record { input = false; output = false; error = false; rdhup = false; hup = false }

-- `EPOLLIN`
abbrev pub k_read : Events
k_read = record no_events { input = true }

-- `EPOLLOUT`
abbrev pub k_write : Events
k_write = record no_events { output = true }

-- `EPOLLERR`
abbrev pub k_error : Events
k_error = record no_events { error = true }

-- `EPOLLRDHUP | EPOLLHUP`
abbrev pub k_close : Events
k_close = record no_events { rdhup = true; hup = true }

-- `a | b`
abbrev pub either : Events → Events → Events
either a b = record {
  input = a.input || b.input;
  output = a.output || b.output;
  error = a.error || b.error;
  rdhup = a.rdhup || b.rdhup;
  hup = a.hup || b.hup;
}

abbrev differ : Bool → Bool → Bool
differ a b = if a then not b else b

-- `a ^ b`
abbrev pub exclusive : Events → Events → Events
exclusive a b = record {
  input = differ a.input b.input;
  output = differ a.output b.output;
  error = differ a.error b.error;
  rdhup = differ a.rdhup b.rdhup;
  hup = differ a.hup b.hup;
}

-- Whether `a & b` is not 0.
abbrev pub meets : Events → Events → Bool
meets a b =
    (a.input && b.input)
    || (a.output && b.output)
    || (a.error && b.error)
    || (a.rdhup && b.rdhup)
    || (a.hup && b.hup)

-- The callbacks are told apart by their names.
pub record Channel : Type 0 where
  pub fd : ℕ
  pub events : Events
  pub active_events : Events
  pub owner : Option ℕ
  pub tied : Bool

pub data Callback : Type 0 where
  read_callback write_callback error_callback close_callback : Callback

abbrev when : Bool → Callback → List Callback
when t c = if t then c ∷ [] else []

-- `Handle`: which callbacks run, in order; `alive` is whether the tied object still exists.
unfoldable pub handle : Channel → Bool → List Callback
handle c alive =
    if c.tied && not alive
    then []
    else when (meets c.active_events k_read) read_callback
      ++ (when (meets c.active_events k_write) write_callback
          ++ (when (meets c.active_events k_error) error_callback
              ++ when (meets c.active_events k_close) close_callback))

-- `Tie`
unfoldable pub tie : Channel → Channel
tie c = record c { tied = true }

-- The kernel's interest list of one epoll instance: descriptors with their masks.
pub record Epoll : Type 0 where
  pub owner : ℕ
  pub interest : List (ℕ × Events)

abbrev is_owner : Option ℕ → ℕ → Bool
is_owner none loop = false
is_owner (some o) loop = o == loop

unfoldable pub watched : ℕ → List (ℕ × Events) → Option Events
watched fd [] = none
watched fd ((j, ev) ∷ l) = if j == fd then some ev else watched fd l

unfoldable pub modified : ℕ → Events → List (ℕ × Events) → List (ℕ × Events)
modified fd ev [] = []
modified fd ev ((j, old) ∷ l) =
    let rest = modified fd ev l in if j == fd then (j, ev) ∷ rest else (j, old) ∷ rest

unfoldable pub removed : ℕ → List (ℕ × Events) → List (ℕ × Events)
removed fd [] = []
removed fd ((j, ev) ∷ l) = let rest = removed fd l in if j == fd then rest else (j, ev) ∷ rest

-- `UpdateChannel`; a channel with an owner has one that is not null, so the second test never holds.
unfoldable pub update_channel : Bool → Epoll → Channel → Bool × Epoll
unfolding modified
update_channel ok e c =
    if not (is_owner c.owner e.owner)
    then (false, e)
    else if not ok
    then (false, e)
    else (true, record e { interest = modified c.fd c.events e.interest })

-- `AddChannel`
unfoldable pub add_channel : Bool → Epoll → Channel → Bool × Channel × Epoll
unfolding update_channel
add_channel ok e c =
    if is_owner c.owner e.owner
    then (let (done, e') = update_channel ok e c in (done, c, e'))
    else elim c.owner [
      | some o ↦ (false, c, e)
      | none ↦
          let c' = record c { owner = some e.owner } in
          if ok
          then (true, c', record e { interest = (c.fd, c.events) ∷ e.interest })
          else (false, c', e)
    ]

-- `DeleteChannel` of a channel that is not null.
unfoldable pub delete_channel : Bool → Epoll → Channel → Bool × Channel × Epoll
unfolding removed
delete_channel ok e c =
    if not (is_owner c.owner e.owner)
    then (false, c, e)
    else if not ok
    then (false, c, e)
    else (true, record c { owner = none }, record e { interest = removed c.fd e.interest })

-- The constructor, for a loop that is not null.
unfoldable pub construct : Bool → Epoll → ℕ → Channel × Epoll
unfolding add_channel
construct ok e fd =
    let fresh : Channel = record {
      fd = fd;
      events = no_events;
      active_events = no_events;
      owner = none;
      tied = false;
    } in
    let (added, c, e') = add_channel ok e fresh in
    if added then (record c { owner = some e.owner }, e') else (c, e')

-- `SetActive` of a channel whose owner is this epoll's loop, or has none.
unfoldable pub set_active : Bool → Epoll → Channel → Events → Channel × Epoll
unfolding update_channel
set_active ok e c status =
    let c' = record c { events = status } in
    elim c.owner [
      | none ↦ (c', e)
      | some o ↦ let (updated, e') = update_channel ok e c' in (c', e')
    ]

-- `SetActiveEvents`
unfoldable pub set_active_events : Channel → Events → Channel
set_active_events c status = record c { active_events = status }

-- `RemoveFromLoop`
unfoldable pub remove_from_loop : Bool → Epoll → Channel → Channel × Epoll
unfolding delete_channel
remove_from_loop ok e c = elim c.owner [
  | none ↦ (record c { owner = none; tied = false }, e)
  | some o ↦
      let (deleted, c', e') = delete_channel ok e c in
      (record c' { owner = none; tied = false }, e')
]
