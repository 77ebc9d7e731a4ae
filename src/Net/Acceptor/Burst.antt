-- ===== src/Net/Acceptor/Burst.antt =====
-- What one readiness of the listening socket does: src/acceptor.cpp.
use reactor_learn.Prelude.{
  ℕ, ◌≡◌, refl, ◌∙◌, true, false, Option, none, some, List, [], ◌∷◌, ◌++◌, ◌==◌, ◌≢◌, ==_iff,
  Bool-cases, inl, inr,
}
use reactor_learn.Net.Address.{InetAddress, new_address, sockaddr_in_size}
use reactor_learn.Net.Socket.{accept}
use reactor_learn.Net.Acceptor.{Answer, connects, fails, eagain, eintr, accept_loop}

-- What the kernel may answer before the last call: connections and interruptions.
unfoldable pub Goes : List Answer → Type 0
Goes [] = Unit
Goes (connects fd addr ∷ l) = Goes l
Goes (fails errno ∷ l) = (errno ≡ eintr) × Goes l

-- The connections among the answers, with the length that the kernel writes.
unfoldable pub arrivals : List Answer → List (ℕ × InetAddress)
arrivals [] = []
arrivals (connects fd addr ∷ l) = (fd, record addr { len = sockaddr_in_size }) ∷ arrivals l
arrivals (fails errno ∷ l) = arrivals l

module _ {ℓ} {S : Type ℓ} (callback : Option ℕ → InetAddress → ℕ → S → S) where
  -- The callback for each connection, in order.
  unfoldable pub for_each : List (ℕ × InetAddress) → S → S
  for_each [] s = s
  for_each ((fd, addr) ∷ l) s = for_each l (callback (some fd) addr 0 s)

  pub for_each_nil : (s : S) → for_each [] s ≡ s
  unfolding for_each
  for_each_nil s = refl

  pub for_each_cons :
      (fd : ℕ) (addr : InetAddress) (l : List (ℕ × InetAddress)) (s : S)
      → for_each ((fd, addr) ∷ l) s ≡ for_each l (callback (some fd) addr 0 s)
  unfolding for_each
  for_each_cons fd addr l s = refl

  pub accept_loop-append :
      (l rest : List Answer) (s : S)
      → Goes l
      → accept_loop callback (l ++ rest) s ≡ accept_loop callback rest (for_each (arrivals l) s)
  unfolding Goes accept_loop arrivals for_each accept
  accept_loop-append [] rest s g = refl
  accept_loop-append (connects fd addr ∷ l) rest s g =
      accept_loop-append l rest (callback (some fd) (record addr { len = sockaddr_in_size }) 0 s) g
  accept_loop-append (fails errno ∷ l) rest s (e, g) = rw e (accept_loop-append l rest s g)

  -- The loop serves a burst of connections whole: interrupted calls are made again, the callback runs
  -- once for each connection in the order of arrival, and `EAGAIN` ends the loop without a call.
  pub accept_loop-burst :
      (l rest : List Answer) (s : S)
      → Goes l
      → accept_loop callback (l ++ (fails eagain ∷ rest)) s ≡ (true, for_each (arrivals l) s)
  unfolding accept_loop
  accept_loop-burst l rest s g = accept_loop-append l (fails eagain ∷ rest) s g ∙ refl

  -- Another error ends the loop too, after the callback was told of it once.
  pub accept_loop-failed :
      (l rest : List Answer) (errno : ℕ) (s : S)
      → Goes l
      → errno ≢ eagain
      → errno ≢ eintr
      → accept_loop callback (l ++ (fails errno ∷ rest)) s
        ≡ (true, callback none new_address errno (for_each (arrivals l) s))
  unfolding accept_loop
  accept_loop-failed l rest errno s g again intr =
      accept_loop-append l (fails errno ∷ rest) s g ∙ rw (other eagain again, other eintr intr) refl
    where
      other : (n : ℕ) → errno ≢ n → (errno == n) ≡ false
      other n ne = elim (Bool-cases (errno == n)) [
        | inl e ↦ absurd (ne ((==_iff errno n).0 e))
        | inr e ↦ e
      ]
