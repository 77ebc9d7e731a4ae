-- ===== src/Log/Append.antt =====
-- What the back end holds, and that `Append` writes inside its buffers.
use reactor_learn.Prelude.{
  ℕ, ◌+◌, ◌-◌, ◌≤◌, ◌≡◌, refl, ◌∙◌, ap, ap₂, sym, Bool, true, false, Option, none, some, List, [],
  ◌++◌, ◌&&◌, not, ltb, leb, if◌then◌else◌, arith, Bool-cases, inl, inr, length, All, append-nil,
}
use reactor_learn.Log.{
  Bytes, k_backendbuffersize, k_backendbufferlimit, PendingBuffer, AsyncLogging, is_null, hand_over,
  copy_in, supply_next, is_full, append_locked, collect, written,
}
use reactor_learn.Log.Buffers.{
  IsPending, IsValid, current_text, logged, Adds, hand_over-Handed, supply_next-Adds, copy_in-Adds,
}

abbrev pub is_dropped : Bytes → AsyncLogging → Bool
is_dropped buf a = is_full buf a && leb k_backendbufferlimit (length a.work_list)

is_full_lem :
    (buf : Bytes) (a : AsyncLogging)
    → a.current_buffer_len ≤ k_backendbuffersize
    → is_full buf a ≡ ltb (k_backendbuffersize - a.current_buffer_len) (length buf)
unfolding is_full
is_full_lem buf a f = ground arith

append_locked_ready :
    (buf : Bytes) (a : AsyncLogging)
    → is_null a.current_buffer ≡ false
    → append_locked buf a ≡ (
        if is_full buf a
        then (if leb k_backendbufferlimit (length a.work_list)
            then supply_next (record a { wake_requested = true })
            else supply_next (copy_in buf (record (hand_over a) { wake_requested = true })))
        else supply_next (copy_in buf a))
append_locked_ready buf a r = unfold append_locked in rw r

-- The part of `Append` under the mutex never writes outside a buffer, and adds the whole text behind
-- what is logged; it drops it only where the current buffer lacks the room and the work list is full,
-- and then what is logged stays as it is. A text must be no longer than a buffer.
pub append_locked-Adds :
    (buf : Bytes) (a : AsyncLogging)
    → IsValid a
    → is_null a.current_buffer ≡ false
    → length buf ≤ k_backendbuffersize
    → Adds a (if is_dropped buf a then [] else buf) (append_locked buf a)
append_locked-Adds buf a v r small =
    rw (append_locked_ready buf a r) (elim (Bool-cases (is_full buf a)) [
      | inr room ↦ rw room (supply_next-Adds (copy_in-Adds buf a v r (fits room)))
      | inl full ↦ elim (Bool-cases (leb k_backendbufferlimit (length a.work_list))) [
        | inl late ↦ rw (full, late) (supply_next-Adds dropped)
        | inr early ↦ rw (full, early) (supply_next-Adds turned)
      ]
    ])
  where
    fits : is_full buf a ≡ false → a.current_buffer_len + length buf ≤ k_backendbuffersize
    fits e = let t = sym (is_full_lem buf a v.fits) ∙ e in ground (arith, v.fits)

    dropped : Adds a [] (record a { wake_requested = true })
    dropped = record {
      valid = record {
        current = v.current;
        fits = v.fits;
        next = v.next;
        pending = v.pending;
        empties = v.empties;
      };
      held = sym (append-nil (logged a));
      ready = r;
    }

    turned : Adds a buf (copy_in buf (record (hand_over a) { wake_requested = true }))
    turned =
        let h = hand_over-Handed a v in
        let hv = h.valid in
        let c =
          copy_in-Adds buf (record (hand_over a) { wake_requested = true })
            (record {
              current = hv.current;
              fits = hv.fits;
              next = hv.next;
              pending = hv.pending;
              empties = hv.empties;
            })
            h.ready (rw h.nothing (omega arith)) in
        record {
          valid = c.valid;
          held =
              c.held
              ∙ ap (λ l. l ++ buf) (ap₂ (λ x y. x ++ y) h.list h.text ∙ append-nil (logged a));
          ready = c.ready;
        }

-- What a pass of the back end takes out and leaves.
pub record Collected (a : AsyncLogging) (l : List PendingBuffer) (d : AsyncLogging) : Type 0 where
  pub valid : IsValid d
  pub ready : is_null d.current_buffer ≡ false
  pub all : written l ≡ logged a
  pub none_left : logged d ≡ []
  pub pending : All IsPending l

collect_lem :
    (a : AsyncLogging)
    → collect a ≡ (
        let a1 =
          if not (is_null a.current_buffer) && ltb 0 a.current_buffer_len then hand_over a else a in
        (a1.work_list, record a1 { work_list = [] }))
unfolding collect
collect_lem a = refl

take_nothing : (o : Option Bytes) (n : ℕ) → ltb 0 n ≡ false → current_text o n ≡ []
take_nothing none n e = refl
take_nothing (some b) n e = let z : n ≡ 0 = ground arith in rw z

-- A pass of the back end takes out all that is logged, in order, and leaves nothing.
pub collect-Collected :
    (a : AsyncLogging)
    → IsValid a
    → is_null a.current_buffer ≡ false
    → Collected a (collect a).0 (collect a).1
unfolding written
collect-Collected a v r =
    rw (collect_lem, r)
      (elim (Bool-cases (ltb 0 a.current_buffer_len)) [
        | inl some_text ↦
            let h = hand_over-Handed a v in
            let hv = h.valid in
            rw some_text (record {
              valid = record {
                current = hv.current;
                fits = hv.fits;
                next = hv.next;
                pending = tt;
                empties = hv.empties;
              };
              ready = h.ready;
              all = h.list;
              none_left = h.text;
              pending = hv.pending;
            })
        | inr no_text ↦
            let nothing = take_nothing a.current_buffer a.current_buffer_len no_text in
            rw no_text (record {
              valid = record {
                current = v.current;
                fits = v.fits;
                next = v.next;
                pending = tt;
                empties = v.empties;
              };
              ready = r;
              all =
                  sym (append-nil (written a.work_list))
                  ∙ ap (λ l. written a.work_list ++ l) (sym nothing);
              none_left = nothing;
              pending = v.pending;
            })
      ])
