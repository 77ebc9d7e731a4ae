-- ===== src/Net/Channel/Registration.antt =====
-- A channel and the interest list of its loop's epoll instance.
use reactor_learn.Prelude.{
  ℕ, ◌≡◌, refl, ◌∙◌, ap, sym, Bool, if_cases, if◌then◌else◌, true, false, Option, none, some, List,
  [], ◌∷◌, ◌==◌, arith, Bool-cases, inl, inr,
}
use reactor_learn.Net.Channel.{
  Events, no_events, Channel, Epoll, watched, modified, removed, construct, set_active,
  remove_from_loop, add_channel, update_channel, delete_channel,
}

watched-removed : (fd : ℕ) (l : List (ℕ × Events)) → watched fd (removed fd l) ≡ none
unfolding watched removed
watched-removed fd [] = refl
watched-removed fd ((j, ev) ∷ l) = ground (arith, watched-removed fd l)

watched-modified :
    (fd : ℕ) (new old : Events) (l : List (ℕ × Events))
    → watched fd l ≡ some old
    → watched fd (modified fd new l) ≡ some new
unfolding watched modified
watched-modified fd new old [] h = cc
watched-modified fd new old ((j, ev) ∷ l) h = elim (Bool-cases (j == fd)) [
  | inl t ↦ rw (t, t)
  | inr f ↦ rw (f, f) (watched-modified fd new old l (rw f at h))
]

same : (n : ℕ) → (n == n) ≡ true
same n = ground arith

-- The loop owns the channel, and the kernel watches the events that it asks for.
pub record Registered (e : Epoll) (c : Channel) : Type 0 where
  pub owner : c.owner ≡ some e.owner
  pub watches : watched c.fd e.interest ≡ some c.events

construct-Registered : (e : Epoll) (fd : ℕ) → (let (c, e') = construct true e fd in Registered e' c)
unfolding construct add_channel watched
construct-Registered e fd = record { owner = refl; watches = rw (same fd) }

set_active-Registered :
    (e : Epoll) (c : Channel) (status : Events)
    → Registered e c
    → (let (c', e') = set_active true e c status in
        Registered e' c' × (c'.events ≡ status) × (c'.fd ≡ c.fd))
set_active-Registered e c status r = rw (steps c.owner r.owner) (
  record { owner = r.owner; watches = watched-modified c.fd status c.events e.interest r.watches },
  refl,
  refl,
)
  where
    steps :
        (o : Option ℕ)
        → o ≡ some e.owner
        → set_active true e (record c { owner = o }) status ≡ (
          record c { owner = o; events = status },
          record e { interest = modified c.fd status e.interest },
        )
    steps o h = rw h (unfold set_active update_channel in rw (same e.owner))

remove_from_loop-Registered :
    (e : Epoll) (c : Channel)
    → Registered e c
    → (let (c', e') = remove_from_loop true e c in
        (c'.owner ≡ none) × (watched c.fd e'.interest ≡ none))
remove_from_loop-Registered e c r =
    rw (steps c.owner r.owner) (refl, watched-removed c.fd e.interest)
  where
    steps :
        (o : Option ℕ)
        → o ≡ some e.owner
        → remove_from_loop true e (record c { owner = o }) ≡ (
          record c { owner = none; tied = false },
          record e { interest = removed c.fd e.interest },
        )
    steps o h = rw h (unfold remove_from_loop delete_channel in rw (same e.owner))

-- A channel's life while `epoll_ctl` succeeds: the kernel watches the descriptor for no event when the
-- channel is made, for exactly the events that are asked for afterwards, and not at all once the
-- channel is removed from its loop.
pub channel_life :
    (e : Epoll) (fd : ℕ) (status : Events)
    → (let (c, e1) = construct true e fd in
        let (c2, e2) = set_active true e1 c status in
        let (c3, e3) = remove_from_loop true e2 c2 in
        (Registered e1 c × (c.events ≡ no_events) × (c.fd ≡ fd))
        × (Registered e2 c2 × (c2.events ≡ status) × (c2.fd ≡ c.fd))
        × ((c3.owner ≡ none) × (watched c2.fd e3.interest ≡ none)))
channel_life e fd status =
    let made = construct-Registered e fd in
    let (c, e1) = construct true e fd in
    let active = set_active-Registered e1 c status made in
    (
      (made, unfold construct add_channel in refl, unfold construct add_channel in refl),
      active,
      remove_from_loop-Registered (set_active true e1 c status).1 (set_active true e1 c status).0
          active.0,
    )

watched-modified-none :
    (fd : ℕ) (new : Events) (l : List (ℕ × Events))
    → watched fd l ≡ none
    → watched fd (modified fd new l) ≡ none
unfolding watched modified
watched-modified-none fd new [] h = refl
watched-modified-none fd new ((j, ev) ∷ l) h = elim (Bool-cases (j == fd)) [
  | inl t ↦ absurd (ground (arith, h, t))
  | inr f ↦ rw (f, f) (watched-modified-none fd new l (rw f at h))
]

-- The calls of `SetActive`, each with whether its `epoll_ctl` succeeds.
unfoldable pub set_all_active : List (Bool × Events) → Channel × Epoll → Channel × Epoll
unfolding set_active
set_all_active [] (c, e) = (c, e)
set_all_active ((ok, status) ∷ l) (c, e) = set_all_active l (set_active ok e c status)

-- The channel has an owner, and the kernel does not watch it.
record Unwatched (owner fd : ℕ) (t : Channel × Epoll) : Type 0 where
  epoll : t.1.owner ≡ owner
  owned : t.0.owner ≡ some owner
  same_fd : t.0.fd ≡ fd
  unseen : watched fd t.1.interest ≡ none

set_active-Unwatched :
    (owner fd : ℕ) (ok : Bool) (status : Events) (c : Channel) (e : Epoll)
    → Unwatched owner fd (c, e)
    → Unwatched owner fd (set_active ok e c status)
set_active-Unwatched owner fd ok status c e u =
    rw (steps c.owner (u.owned ∙ ap some (sym u.epoll))) (
      if_cases (λ (f : Epoll). Unwatched owner fd (record c { events = status }, f)) ok
        (λ _. record {
          epoll = u.epoll;
          owned = u.owned;
          same_fd = u.same_fd;
          unseen = rw u.same_fd (watched-modified-none fd status e.interest u.unseen);
        })
        (λ _. record { epoll = u.epoll; owned = u.owned; same_fd = u.same_fd; unseen = u.unseen }))
  where
    steps :
        (o : Option ℕ)
        → o ≡ some e.owner
        → set_active ok e (record c { owner = o }) status ≡ (
          record c { owner = o; events = status },
          if ok then record e { interest = modified c.fd status e.interest } else e,
        )
    steps o h = rw h (unfold set_active update_channel in rw (same e.owner) (ground arith))

set_all_active-Unwatched :
    (owner fd : ℕ) (l : List (Bool × Events)) (t : Channel × Epoll)
    → Unwatched owner fd t
    → Unwatched owner fd (set_all_active l t)
unfolding set_all_active
set_all_active-Unwatched owner fd [] (c, e) u = u
set_all_active-Unwatched owner fd ((ok, status) ∷ l) (c, e) u =
    set_all_active-Unwatched owner fd l (set_active ok e c status)
      (set_active-Unwatched owner fd ok status c e u)

-- Where `epoll_ctl` fails for a new channel whose descriptor the kernel does not watch, its owner is set
-- all the same, and however often `SetActive` is called then, whatever its `epoll_ctl` gives, the channel
-- keeps its owner and the kernel does not watch its descriptor.
pub construct-failed :
    (e : Epoll) (fd : ℕ) (l : List (Bool × Events))
    → watched fd e.interest ≡ none
    → (let (c, e1) = set_all_active l (construct false e fd) in
        (c.owner ≡ some e.owner) × (c.fd ≡ fd) × (watched fd e1.interest ≡ none))
construct-failed e fd l h =
    let u = set_all_active-Unwatched e.owner fd l (construct false e fd) fresh in
    (u.owned, u.same_fd, u.unseen)
  where
    fresh : Unwatched e.owner fd (construct false e fd)
    fresh =
        unfold construct add_channel in
        record { epoll = refl; owned = refl; same_fd = refl; unseen = h }
