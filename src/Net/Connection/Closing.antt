-- ===== src/Net/Connection/Closing.antt =====
-- How a connection closes: its status only goes forward, and its socket is closed once.
use reactor_learn.Prelude.{
  ℕ, suc, ◌+◌, ◌≤◌, ◌%◌, ◌^◌, ◌≡◌, refl, ◌∙◌, true, false, List, [], ◌∷◌, ◌++◌, not, ◌==◌,
  if◌then◌else◌, arith, if_cases, length,
}
use reactor_learn.Net.Channel.{exclusive, meets, k_write}
use reactor_learn.Net.Connection.{
  Status, k_connecting, k_disconnecting, k_disconnected, is_connecting, is_disconnected,
  is_disconnecting, Connection, Tell, leaves_loop, closes_socket, calls_back, refreshes,
  is_transient, called_back, close_in_thread, close, activate_in_thread, watch_output, write_now,
  write_in_thread, drained,
}
use reactor_learn.Buffer
use reactor_learn.Buffer.{Buffer, Io, failed, done}

-- How often the socket was closed.
abbrev pub times_closed : List Tell → ℕ
times_closed [] = 0
times_closed (leaves_loop ∷ l) = times_closed l
times_closed (closes_socket ∷ l) = suc (times_closed l)
times_closed (calls_back ∷ l) = times_closed l
times_closed (refreshes ∷ l) = times_closed l

pub times_closed-append :
    (l m : List Tell) → times_closed (l ++ m) ≡ times_closed l + times_closed m
times_closed-append [] m = omega arith
times_closed-append (leaves_loop ∷ l) m = times_closed-append l m
times_closed-append (closes_socket ∷ l) m = omega (arith, times_closed-append l m)
times_closed-append (calls_back ∷ l) m = times_closed-append l m
times_closed-append (refreshes ∷ l) m = times_closed-append l m

-- Forward along kConnecting, kDisConnecting, kDisConnected.
abbrev pub rank : Status → ℕ
rank k_connecting = 0
rank k_disconnecting = 1
rank k_disconnected = 2

pub record IsSound (c : Connection) : Type 0 where
  pub once : times_closed c.tells ≡ (if is_disconnected c.status then 1 else 0)
  pub drains : is_disconnecting c.status ≡ true → Buffer.empty c.write_buffer ≡ false
  pub owner : c.owned ≡ not (is_disconnected c.status)

-- From a sound state to a sound state, and not back.
pub record Onward (c d : Connection) : Type 0 where
  pub sound : IsSound d
  pub forward : rank c.status ≤ rank d.status

pub stay : {c : Connection} → IsSound c → Onward c c
stay s = record { sound = s; forward = omega arith }

pub Onward-trans : {c d e : Connection} → Onward c d → Onward d e → Onward c e
Onward-trans f g = record { sound = g.sound; forward = omega (arith, f.forward, g.forward) }

times_closed-called_back : (c : Connection) → times_closed (called_back c) ≡ 0
times_closed-called_back c = ground arith

pub close_in_thread-Onward : (c : Connection) → IsSound c → Onward c (close_in_thread c)
unfolding close_in_thread
close_in_thread-Onward c s =
    if_cases (Onward c) (is_disconnected c.status) (λ _. stay s)
      (λ going.
        if_cases (Onward c) (Buffer.empty c.write_buffer)
          (λ _. record {
            sound = record {
              once =
                  rw (times_closed-append c.tells (leaves_loop ∷ closes_socket ∷ called_back c))
                    (omega (arith, not_yet going, times_closed-called_back c));
              drains = λ e. absurd (ground arith);
              owner = refl;
            };
            forward = ground arith;
          })
          (λ w. record {
            sound = record {
              once = s.once ∙ rw going;
              drains = λ _. w;
              owner = s.owner ∙ rw going;
            };
            forward = ground arith;
          }))
  where
    not_yet : is_disconnected c.status ≡ false → times_closed c.tells ≡ 0
    not_yet e = s.once ∙ rw e

pub close-Onward : (c : Connection) → IsSound c → Onward c (close c)
unfolding close
close-Onward c s =
    if_cases (Onward c) c.close_requested (λ _. stay s)
      (λ _.
        if_cases (Onward c) c.owned
          (λ _. restate (
            close_in_thread-Onward (record c { close_requested = true })
              (record { once = s.once; drains = s.drains; owner = s.owner })))
          (λ _. record {
            sound = record { once = s.once; drains = s.drains; owner = s.owner };
            forward = omega arith;
          }))
  where
    restate : {d : Connection} → Onward (record c { close_requested = true }) d → Onward c d
    restate o = record { sound = o.sound; forward = o.forward }

pub activate_in_thread-Onward : (c : Connection) → IsSound c → Onward c (activate_in_thread c)
unfolding activate_in_thread
activate_in_thread-Onward c s =
    if_cases (Onward c) (is_connecting c.status)
      (λ _. record {
        sound = record { once = s.once; drains = s.drains; owner = s.owner };
        forward = omega arith;
      })
      (λ _. stay s)

watch_output-Onward : {c d : Connection} → Onward c d → Onward c (watch_output d)
unfolding watch_output
watch_output-Onward {c} {d} o =
    if_cases (Onward c) (Buffer.empty d.write_buffer) (λ _. o)
      (λ _. record {
        sound = record { once = o.sound.once; drains = o.sound.drains; owner = o.sound.owner };
        forward = o.forward;
      })

-- While it is connecting, a connection may write as it likes.
rewritten :
    (c : Connection) (b : Buffer) (sent : List ℕ)
    → IsSound c
    → is_connecting c.status ≡ true
    → Onward c (record c { write_buffer = b; sent = sent })
rewritten c b sent s t = record {
  sound = record { once = s.once; drains = λ e. absurd (ground arith); owner = s.owner };
  forward = omega arith;
}

write_now-Onward :
    (message : List ℕ) (io : Io ℕ) (c : Connection)
    → IsSound c
    → is_connecting c.status ≡ true
    → Onward c (write_now message io c)
unfolding write_now
write_now-Onward message (done n) c s t =
    if_cases (Onward c) (n % 2 ^ 32 == length message) (λ _. rewritten c c.write_buffer _ s t)
      (λ _. rewritten c _ _ s t)
write_now-Onward message (failed errno) c s t =
    if_cases (Onward c) (is_transient errno) (λ _. rewritten c _ c.sent s t)
      (λ _. close_in_thread-Onward c s)

pub write_in_thread-Onward :
    (message : List ℕ) (io : Io ℕ) (c : Connection)
    → IsSound c
    → Onward c (write_in_thread message io c)
unfolding write_in_thread
write_in_thread-Onward message io c s =
    if_cases (Onward c) (is_connecting c.status)
      (λ t. watch_output-Onward (
        if_cases (Onward c) (Buffer.empty c.write_buffer) (λ _. write_now-Onward message io c s t)
          (λ _. rewritten c (Buffer.write_buffer c.write_buffer message) c.sent s t)))
      (λ _. stay s)

-- What `WriteFd` makes of the buffer, before it looks whether all is written.
pub record IsNearly (c : Connection) : Type 0 where
  pub once : times_closed c.tells ≡ (if is_disconnected c.status then 1 else 0)
  pub owner : c.owned ≡ not (is_disconnected c.status)

pub drained-Onward : (c : Connection) → IsNearly c → Onward c (drained c)
unfolding drained
drained-Onward c s =
    if_cases (Onward c) (is_disconnecting c.status)
      (λ t. record {
        sound = record {
          once =
              rw
                (
                  times_closed-append c.tells (called_back c ++ (leaves_loop ∷ closes_socket ∷ [])),
                  times_closed-append (called_back c) (leaves_loop ∷ closes_socket ∷ []),
                )
                (omega (arith, not_yet t, times_closed-called_back c));
          drains = λ e. absurd (ground arith);
          owner = refl;
        };
        forward = ground arith;
      })
      (λ f. quiet f)
  where
    not_yet : is_disconnecting c.status ≡ true → times_closed c.tells ≡ 0
    not_yet e = s.once ∙ ground arith

    quiet :
        is_disconnecting c.status ≡ false
        → Onward c
            (if meets c.events k_write then record c { events = exclusive c.events k_write } else c)
    quiet f =
        if_cases (Onward c) (meets c.events k_write)
          (λ _. record {
            sound = record { once = s.once; drains = λ e. absurd (ground arith); owner = s.owner };
            forward = omega arith;
          })
          (λ _. record {
            sound = record { once = s.once; drains = λ e. absurd (ground arith); owner = s.owner };
            forward = omega arith;
          })
