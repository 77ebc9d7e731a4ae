-- ===== src/Log/Buffers.antt =====
-- The buffers of the back end in src/logger.cpp: their sizes, and the text that they hold.
use reactor_learn.Prelude.{
  ℕ, ◌+◌, ◌%◌, ◌^◌, ◌≤◌, ◌≡◌, refl, ◌∙◌, ap, sym, Bool, false, Option, none, some, List, [], ◌∷◌,
  ◌++◌, not, arith, if_cases, length, take, drop, All, All-append, length-append, length-overwrite,
  length-replicate, overwrite, take-append_self, append_assoc, append-nil,
}
use reactor_learn.Kv.ByteOrder.Laws.{lengths}
use reactor_learn.Log.{
  Bytes, k_backendbuffersize, PendingBuffer, AsyncLogging, make_unique, fresh_buffer, taken,
  take_buffer_locked, is_null, supplied, refill, handed_over, hand_over, copied, copy_in,
  supply_next, written,
}

abbrev pub IsWhole : Bytes → Type 0
IsWhole b = length b ≡ k_backendbuffersize

abbrev pub IsNullOrWhole : Option Bytes → Type 0
IsNullOrWhole none = Unit {0}
IsNullOrWhole (some b) = IsWhole b

abbrev pub IsPending : PendingBuffer → Type 0
IsPending p = IsWhole p.data_bytes × (p.len ≤ k_backendbuffersize)

-- Every buffer has its full size, and what is written is inside.
pub record IsValid (a : AsyncLogging) : Type 0 where
  pub current : IsNullOrWhole a.current_buffer
  pub fits : a.current_buffer_len ≤ k_backendbuffersize
  pub next : IsNullOrWhole a.next_buffer
  pub pending : All IsPending a.work_list
  pub empties : All IsWhole a.empty_buffers

abbrev pub current_text : Option Bytes → ℕ → Bytes
current_text none len = []
current_text (some b) len = take len b

-- The log's text that is not yet written: of the work list, and of the current buffer.
abbrev pub logged : AsyncLogging → Bytes
logged a = written a.work_list ++ current_text a.current_buffer a.current_buffer_len

-- From one state to another that is valid, with this text behind the same.
pub record Adds (a : AsyncLogging) (text : Bytes) (d : AsyncLogging) : Type 0 where
  pub valid : IsValid d
  pub held : logged d ≡ logged a ++ text
  pub ready : is_null d.current_buffer ≡ false

pub length-make_unique : (size : ℕ) → length (make_unique size) ≡ size
unfolding make_unique
length-make_unique size = length-replicate size 0

pub fresh_buffer-IsWhole : IsWhole fresh_buffer
fresh_buffer-IsWhole = length-make_unique k_backendbuffersize

pub taken-IsWhole : (l : List Bytes) → All IsWhole l → IsWhole (taken l).0 × All IsWhole (taken l).1
taken-IsWhole [] h = (fresh_buffer-IsWhole, tt)
taken-IsWhole (b ∷ l) h = h

abbrev pub is_ready : AsyncLogging → Bool
is_ready a = not (is_null a.current_buffer)

-- With no current buffer and nothing written in it, another one comes.
pub record Refilled (a d : AsyncLogging) : Type 0 where
  pub valid : IsValid d
  pub ready : is_null d.current_buffer ≡ false
  pub text : current_text d.current_buffer d.current_buffer_len ≡ []
  pub list : d.work_list ≡ a.work_list
  pub nothing : d.current_buffer_len ≡ 0

pub refill-Refilled :
    (a : AsyncLogging) → IsValid a → a.current_buffer_len ≡ 0 → Refilled a (refill a)
unfolding refill take_buffer_locked
refill-Refilled a v e = go a.next_buffer v.next
  where
    go : (o : Option Bytes) → IsNullOrWhole o → Refilled a (supplied a o)
    go (some b) w = record {
      valid = record {
        current = w;
        fits = v.fits;
        next = tt;
        pending = v.pending;
        empties = v.empties;
      };
      ready = refl;
      text = rw e;
      list = refl;
      nothing = e;
    }
    go none w =
        let (whole, rest) = taken-IsWhole a.empty_buffers v.empties in
        unfold take_buffer_locked in
        record {
          valid = record {
            current = whole;
            fits = v.fits;
            next = v.next;
            pending = v.pending;
            empties = rest;
          };
          ready = refl;
          text = rw e;
          list = refl;
          nothing = e;
        }

pub written-append : (l m : List PendingBuffer) → written (l ++ m) ≡ written l ++ written m
unfolding written
written-append [] m = refl
written-append (p ∷ l) m =
    ap (λ w. take p.len p.data_bytes ++ w) (written-append l m)
    ∙ sym (append_assoc (take p.len p.data_bytes) (written l) (written m))

pub handed_over_lem :
    (o : Option Bytes) (len : ℕ)
    → IsNullOrWhole o
    → len ≤ k_backendbuffersize
    → All IsPending (handed_over o len) × (written (handed_over o len) ≡ current_text o len)
unfolding written
handed_over_lem none len w f = (tt, refl)
handed_over_lem (some b) len w f = (((w, f), tt), append-nil (take len b))

-- The current buffer goes to the work list, and another takes its place.
pub record Handed (a d : AsyncLogging) : Type 0 where
  pub valid : IsValid d
  pub ready : is_null d.current_buffer ≡ false
  pub text : current_text d.current_buffer d.current_buffer_len ≡ []
  pub list : written d.work_list ≡ logged a
  pub count : length d.work_list ≤ length a.work_list + 1
  pub nothing : d.current_buffer_len ≡ 0

pub hand_over-Handed : (a : AsyncLogging) → IsValid a → Handed a (hand_over a)
hand_over-Handed a v =
    let (pending, text) = handed_over_lem a.current_buffer a.current_buffer_len v.current v.fits in
    let r =
      refill-Refilled given
        (record {
          current = tt;
          fits = omega arith;
          next = v.next;
          pending =
              All-append IsPending a.work_list (handed_over a.current_buffer a.current_buffer_len)
                v.pending pending;
          empties = v.empties;
        })
        refl in
    rw hand_over_lem (record {
      valid = r.valid;
      ready = r.ready;
      text = r.text;
      list =
          ap written r.list
          ∙ written-append a.work_list (handed_over a.current_buffer a.current_buffer_len)
          ∙ ap (λ w. written a.work_list ++ w) text;
      count = rw r.list (
          omega (
            arith,
            length-append a.work_list (handed_over a.current_buffer a.current_buffer_len),
            one a.current_buffer,
          ));
      nothing = r.nothing;
    })
  where
    one : (o : Option Bytes) → length (handed_over o a.current_buffer_len) ≤ 1
    one none = omega arith
    one (some b) = omega arith

    given : AsyncLogging
    given = record a {
      work_list = a.work_list ++ handed_over a.current_buffer a.current_buffer_len;
      current_buffer = none;
      current_buffer_len = 0;
    }

    hand_over_lem : hand_over a ≡ refill given
    hand_over_lem = unfold hand_over in refl

pub supply_next-Adds :
    {a d : AsyncLogging} {text : Bytes} → Adds a text d → Adds a text (supply_next d)
unfolding supply_next take_buffer_locked
supply_next-Adds {a} {d} {text} h =
    if_cases (Adds a text) (is_null d.next_buffer)
      (λ _.
        let (whole, rest) = taken-IsWhole d.empty_buffers h.valid.empties in
        record {
          valid = record {
            current = h.valid.current;
            fits = h.valid.fits;
            next = whole;
            pending = h.valid.pending;
            empties = rest;
          };
          held = h.held;
          ready = h.ready;
        })
      (λ _. h)

pub copied_lem :
    (o : Option Bytes) (len : ℕ) (buf : Bytes)
    → IsNullOrWhole o
    → is_null o ≡ false
    → len + length buf ≤ k_backendbuffersize
    → IsNullOrWhole (copied o len buf)
      × (current_text (copied o len buf) (len + length buf) ≡ current_text o len ++ buf)
unfolding overwrite
copied_lem none len buf w r f = absurd (ground arith)
copied_lem (some b) len buf w r f = (
  length-overwrite b buf len (omega arith) ∙ w,
  ap (take (len + length buf)) (sym (append_assoc (take len b) buf (drop (len + length buf) b)))
      ∙ take-append_self (len + length buf) (take len b ++ buf) (drop (len + length buf) b)
          (omega lengths),
)

pub copy_in-Adds :
    (buf : Bytes) (a : AsyncLogging)
    → IsValid a
    → is_null a.current_buffer ≡ false
    → a.current_buffer_len + length buf ≤ k_backendbuffersize
    → Adds a buf (copy_in buf a)
unfolding copy_in
copy_in-Adds buf a v r f =
    let (whole, text) = copied_lem a.current_buffer a.current_buffer_len buf v.current r f in
    let small : (a.current_buffer_len + length buf) % 2 ^ 32 ≡ a.current_buffer_len + length buf =
      omega arith in
    rw small (record {
      valid = record {
        current = whole;
        fits = f;
        next = v.next;
        pending = v.pending;
        empties = v.empties;
      };
      held =
          ap (λ w. written a.work_list ++ w) text
          ∙ sym (
              append_assoc (written a.work_list)
                (current_text a.current_buffer a.current_buffer_len) buf);
      ready = still a.current_buffer r;
    })
  where
    still :
        (o : Option Bytes) → is_null o ≡ false → is_null (copied o a.current_buffer_len buf) ≡ false
    still none e = e
    still (some b) e = e
