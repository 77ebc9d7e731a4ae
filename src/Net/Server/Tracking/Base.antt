-- ===== src/Net/Server/Tracking/Base.antt =====
-- The base loop's missions, and the work of connections, keep track of every connection.
use reactor_learn.Prelude.{
  ℕ, ◌+◌, ◌-◌, ◌≤◌, ◌≡◌, refl, sym, ◌∙◌, ap, Bool, true, false, List, [], ◌∷◌, ◌++◌, ◌&&◌, not,
  ◌==◌, inl, inr, if◌then◌else◌, Bool-cases, arith, append-nil,
}
use reactor_learn.Net.Connection.{Connection, is_disconnected, set_close_callback}
use reactor_learn.Net.Connection.Closing.{Onward, rank}
use reactor_learn.Net.Connection.Calling.{times_called, weight, Calls, step-Calls}
use reactor_learn.Net.Connection.Life
use reactor_learn.Net.Server.{
  Mission, inserts, erases, Phase, absent, handed, waits, served, TcpServer, has, run_base, work,
  ran, erasures,
}
use reactor_learn.Net.Server.Tracking.{
  at_phase, subject, about, queued, IsServed, IsTracked, TrackedAt, Tracks, same, self,
  about-append, has-insert, has-erase,
}

abbrev pub kind : List Mission → ℕ
kind [] = 0
kind (inserts x ∷ l) = 1
kind (erases x ∷ l) = 2

abbrev tail : List Mission → List Mission
tail [] = []
tail (m ∷ l) = l

-- A connection whose insertion is pending waits, and one whose erasure is pending was served.
inserting :
    (id x : ℕ) (rest : List Mission) (p : Phase) (q : ℕ) (ms : List Mission) (held closed : Bool)
    → IsTracked id p q ms held closed
    → ms ≡ inserts x ∷ rest
    → (p ≡ waits) × (q ≡ 0) × (rest ≡ []) × (held ≡ false) × (closed ≡ false)
inserting id x rest absent q ms held closed (_, n, _) e =
    absurd (omega (arith, ap kind (sym n ∙ e)))
inserting id x rest handed q ms held closed (_, n, _) e =
    absurd (omega (arith, ap kind (sym n ∙ e)))
inserting id x rest waits q ms held closed (z, n, h, c) e = (refl, z, ap tail (sym e ∙ n), h, c)
inserting id x rest served q ms held closed (_, inl (n, _, _)) e =
    absurd (omega (arith, ap kind (sym n ∙ e)))
inserting id x rest served q ms held closed (_, inr (inl (n, _, _))) e =
    absurd (omega (arith, ap kind (sym n ∙ e)))
inserting id x rest served q ms held closed (_, inr (inr (n, _, _))) e =
    absurd (omega (arith, ap kind (sym n ∙ e)))

erasing :
    (id x : ℕ) (rest : List Mission) (p : Phase) (q : ℕ) (ms : List Mission) (held closed : Bool)
    → IsTracked id p q ms held closed
    → ms ≡ erases x ∷ rest
    → (p ≡ served) × (q ≡ 0) × (rest ≡ []) × (closed ≡ true)
erasing id x rest absent q ms held closed (_, n, _) e = absurd (omega (arith, ap kind (sym n ∙ e)))
erasing id x rest handed q ms held closed (_, n, _) e = absurd (omega (arith, ap kind (sym n ∙ e)))
erasing id x rest waits q ms held closed (_, n, _, _) e =
    absurd (omega (arith, ap kind (sym n ∙ e)))
erasing id x rest served q ms held closed (_, inl (n, _, _)) e =
    absurd (omega (arith, ap kind (sym n ∙ e)))
erasing id x rest served q ms held closed (z, inr (inl (n, _, c))) e =
    (refl, z, ap tail (sym e ∙ n), c)
erasing id x rest served q ms held closed (_, inr (inr (n, _, _))) e =
    absurd (omega (arith, ap kind (sym n ∙ e)))

pub about-mine :
    (id : ℕ) (m : Mission) (l ms : List Mission)
    → ms ≡ m ∷ l
    → (subject m == id) ≡ true
    → about id ms ≡ m ∷ about id l
unfolding about
about-mine id m l ms e mine = rw (e, mine) refl

pub about-other :
    (id : ℕ) (m : Mission) (l ms : List Mission)
    → ms ≡ m ∷ l
    → (subject m == id) ≡ false
    → about id ms ≡ about id l
unfolding about
about-other id m l ms e other = rw (e, other) refl

-- The mission that runs was the base loop's first.
ran-Tracks : (ms : List Mission) (s : TcpServer) → s.missions ≡ ms → Tracks s → Tracks (ran ms s)
unfolding set_close_callback
ran-Tracks [] s m t = t
ran-Tracks (inserts x ∷ l) s m t = record {
  tracked = λ id. elim (Bool-cases (x == id)) [
    | inl e ↦
        let first = about-mine id (inserts x) l s.missions m e in
        let (_, q, ms, _, open_yet) =
          inserting id x (about id l) (s.phase id) _ _ _ _ (t.tracked id) first in
        rw (has-insert id x s.tcpst, e) (q, inl (ms, refl, rw (same e) open_yet))
    | inr e ↦
        let first = about-other id (inserts x) l s.missions m e in
        rw (has-insert id x s.tcpst, e, ← first) (t.tracked id)
  ];
  fresh = λ id below. elim (Bool-cases (x == id)) [
    | inl e ↦
        let (_, idle, _) = at_phase s id absent (t.fresh id below) (t.tracked id) in
        absurd (omega (arith, ap kind (sym idle ∙ about-mine id (inserts x) l s.missions m e)))
    | inr e ↦ rw e (t.fresh id below)
  ];
  sound = λ id. elim (Bool-cases (x == id)) [
    | inl e ↦
        let s0 = t.sound x in rw e (record { once = s0.once; drains = s0.drains; owner = s0.owner })
    | inr e ↦ rw e (t.sound id)
  ];
  shared =
      λ id. elim (Bool-cases (x == id)) [ inl e ↦ rw e (t.shared x) | inr e ↦ rw e (t.shared id) ];
  linked =
      λ id. elim (Bool-cases (x == id)) [ inl e ↦ rw e (λ h. refl) | inr e ↦ rw e (t.linked id) ];
}
ran-Tracks (erases x ∷ l) s m t = record {
  tracked = λ id. elim (Bool-cases (x == id)) [
    | inl e ↦
        let first = about-mine id (erases x) l s.missions m e in
        let (p, q, ms, closed) =
          erasing id x (about id l) (s.phase id) _ _ _ _ (t.tracked id) first in
        rw (has-erase id x s.tcpst, e, p) (q, inr (inr (ms, refl, closed)))
    | inr e ↦
        let first = about-other id (erases x) l s.missions m e in
        rw (has-erase id x s.tcpst, e, ← first) (t.tracked id)
  ];
  fresh = t.fresh;
  sound = t.sound;
  shared = t.shared;
  linked = t.linked;
}

pub run_base-Tracks : (s : TcpServer) → Tracks s → Tracks (run_base s)
unfolding run_base
run_base-Tracks s t = ran-Tracks s.missions s refl t

disconnected-rank :
    (c d : Connection)
    → rank c.status ≤ rank d.status
    → is_disconnected c.status ≡ true
    → is_disconnected d.status ≡ true
disconnected-rank c d h e = ground arith

-- What a served connection's work makes of the base loop's missions about it.
worked :
    (id : ℕ) (ms ns : List Mission) (held was is : Bool)
    → (was ≡ true → is ≡ true)
    → ns ≡ (if is && not was then ms ++ (erases id ∷ []) else ms)
    → IsServed id ms held was
    → IsServed id ns held is
worked id ms ns held true true up e v = rw e v
worked id ms ns held true false up e v = absurd (ground (arith, up refl))
worked id ms ns held false true up e (inl (none_left, h, _)) = inr (inl (e ∙ rw none_left, h, refl))
worked id ms ns held false true up e (inr (inl (_, _, c))) = absurd (ground (arith, c))
worked id ms ns held false true up e (inr (inr (_, _, c))) = absurd (ground (arith, c))
worked id ms ns held false false up e v = rw e v

-- An erasure that is submitted or not, seen from its connection and from another.
about-noted :
    (id x : ℕ) (b : Bool) (ms : List Mission)
    → (x == id) ≡ true
    → about id (if b then ms ++ (erases x ∷ []) else ms)
      ≡ (if b then about id ms ++ (erases id ∷ []) else about id ms)
unfolding about
about-noted id x true ms e =
    about-append id ms (erases x ∷ []) ∙ rw e (ap (λ k. about id ms ++ (erases k ∷ [])) (same e))
about-noted id x false ms e = refl

about-unnoted :
    (id x : ℕ) (b : Bool) (ms : List Mission)
    → (x == id) ≡ false
    → about id (if b then ms ++ (erases x ∷ []) else ms) ≡ about id ms
unfolding about
about-unnoted id x true ms e = about-append id ms (erases x ∷ []) ∙ rw e (append-nil (about id ms))
about-unnoted id x false ms e = refl

weight_linked :
    (c : Connection)
    → c.shared ≡ true
    → c.callback ≡ true
    → weight c ≡ (if is_disconnected c.status then 1 else 0)
weight_linked c shared callback = ground (arith, shared, callback)

-- The close callback of a connection that has one is called where it gets disconnected.
erasing_missions :
    (id : ℕ) (was is : Bool) (ms : List Mission) (a b : ℕ)
    → (was ≡ true → is ≡ true)
    → b + (if was then 1 else 0) ≡ a + (if is then 1 else 0)
    → ms ++ erasures id (b - a) ≡ (if is && not was then ms ++ (erases id ∷ []) else ms)
erasing_missions id true true ms a b up e =
    let z : b - a ≡ 0 = omega (arith, e) in rw z (append-nil ms)
erasing_missions id true false ms a b up e = absurd (ground (arith, up refl))
erasing_missions id false true ms a b up e = let z : b - a ≡ 1 = omega (arith, e) in rw z refl
erasing_missions id false false ms a b up e =
    let z : b - a ≡ 0 = omega (arith, e) in rw z (append-nil ms)

pub work-Tracks :
    (id : ℕ) (op : Life.Op) (s : TcpServer) → s.phase id ≡ served → Tracks s → Tracks (work id op s)
unfolding work
work-Tracks x op s p t = record {
  tracked = λ id. elim (Bool-cases (x == id)) [
    | inl e ↦ mine id e
    | inr e ↦ rw (noted, about-unnoted id x gone s.missions e, e) (t.tracked id)
  ];
  fresh = t.fresh;
  sound = λ id. elim (Bool-cases (x == id)) [
    | inl e ↦ rw e (Life.step-Onward op (s.connection x) (t.sound x)).sound
    | inr e ↦ rw e (t.sound id)
  ];
  shared = λ id. elim (Bool-cases (x == id)) [
    | inl e ↦ rw e (calls.shared ∙ t.shared x)
    | inr e ↦ rw e (t.shared id)
  ];
  linked = λ id. elim (Bool-cases (x == id)) [
    | inl e ↦ rw e (λ h. calls.callback ∙ t.linked x p)
    | inr e ↦ rw e (t.linked id)
  ];
}
  where
    calls : Calls (s.connection x) (Life.step op (s.connection x))
    calls = step-Calls op (s.connection x)

    onward : Onward (s.connection x) (Life.step op (s.connection x))
    onward = Life.step-Onward op (s.connection x) (t.sound x)

    was : Bool
    was = is_disconnected (s.connection x).status

    is : Bool
    is = is_disconnected (Life.step op (s.connection x)).status

    gone : Bool
    gone = is && not was

    up : was ≡ true → is ≡ true
    up = disconnected-rank (s.connection x) (Life.step op (s.connection x)) onward.forward

    counts :
        times_called (Life.step op (s.connection x)).tells + (if was then 1 else 0)
        ≡ times_called (s.connection x).tells + (if is then 1 else 0)
    counts =
        let set = t.linked x p in
        rw
          (
            ← weight_linked (s.connection x) (t.shared x) set,
            ← weight_linked (Life.step op (s.connection x)) (calls.shared ∙ t.shared x)
                (calls.callback ∙ set),
          )
          calls.calls

    noted :
        s.missions
          ++ erasures x (
              times_called (Life.step op (s.connection x)).tells
              - times_called (s.connection x).tells)
        ≡ (if gone then s.missions ++ (erases x ∷ []) else s.missions)
    noted = erasing_missions x was is s.missions _ _ up counts

    before : IsTracked x served (queued x s.submitted) (about x s.missions) (has x s.tcpst) was
    before = at_phase s x served p (t.tracked x)

    own : IsServed x (about x (work x op s).missions) (has x s.tcpst) is
    own =
        worked x (about x s.missions) (about x (work x op s).missions) (has x s.tcpst) was is up
          (ap (about x) noted ∙ about-noted x x gone s.missions (self x)) before.1

    mine : (id : ℕ) → (x == id) ≡ true → TrackedAt (work x op s) id
    mine id e = rw (← same e, p, self x) (before.0, own)
