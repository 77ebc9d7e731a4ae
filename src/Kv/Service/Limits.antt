-- ===== src/Kv/Service/Limits.antt =====
-- The switch of `KVService::ShouldEcho`: what it answers, and the limits that it keeps.
use reactor_learn.Prelude.{
  ℕ, ◌≤◌, ◌≡◌, refl, inl, inr, Bool, true, false, Option, none, some, [], ◌∷◌, arith, ◌==◌,
  if_cases, if◌then◌else◌, Bool-cases, Option-cases, length, All,
}
use reactor_learn.Kv.Protocol.{
  Bytes, KvRequest, KvResponse, k_ok, k_ping, k_put, k_get, k_max_value_length,
}
use reactor_learn.Kv.Request.Encode.{KeyFits, IsSendable}
use reactor_learn.Kv.Store.{bytes_eq, Map, find, assign, without, get_entry, put_entry, del_entry}
use reactor_learn.Kv.Store.Refine.{
  View, view, get, put, del, view_call, store_call, store_call-view_call, get_entry_lem, get_answer,
  del_entry_lem, del_answer,
}
use reactor_learn.Kv.Service.{execute, cleared}
use mathlib.Core.Option.{some-injective}

-- Every entry of the store is within the protocol's limits.
abbrev pub IsBounded : Map → Type 0
IsBounded = All (λ (e : Bytes × Bytes). KeyFits e.0 × (length e.1 ≤ k_max_value_length))

pub assign-IsBounded :
    (k v : Bytes) (m : Map)
    → KeyFits k
    → length v ≤ k_max_value_length
    → IsBounded m
    → IsBounded (assign k v m)
unfolding assign
assign-IsBounded k v [] hk hv h = ((hk, hv), tt)
assign-IsBounded k v ((j, w) ∷ m) hk hv h =
    if_cases IsBounded (bytes_eq j k) (λ _. ((h.0.0, hv), h.1))
      (λ _. (h.0, assign-IsBounded k v m hk hv h.1))

pub without-IsBounded : (k : Bytes) (m : Map) → IsBounded m → IsBounded (without k m)
unfolding without
without-IsBounded k [] h = tt
without-IsBounded k ((j, w) ∷ m) h =
    if_cases IsBounded (bytes_eq j k) (λ _. without-IsBounded k m h.1)
      (λ _. (h.0, without-IsBounded k m h.1))

pub find-IsBounded :
    (k v : Bytes) (m : Map) → IsBounded m → find k m ≡ some v → length v ≤ k_max_value_length
unfolding find
find-IsBounded k v [] h e = cc
find-IsBounded k v ((j, w) ∷ m) h e = elim (Bool-cases (bytes_eq j k)) [
  | inl t ↦ rw (← some-injective w v (rw t at e)) h.0.1
  | inr f ↦ find-IsBounded k v m h.1 (rw f at e)
]

-- What a request means for the abstract store: its answer, and the store after it.
unfoldable pub view_execute : View → KvRequest → KvResponse × View
unfolding view_call
view_execute s r =
    if r.opcode == k_ping
    then (cleared k_ok, s)
    else if r.opcode == k_put
    then view_call s (put r)
    else if r.opcode == k_get
    then view_call s (get r)
    else view_call s (del r)

pub execute_lem :
    (mp : Map) (r : KvRequest) (response : KvResponse)
    → IsSendable r
    → execute mp r response ≡ (
        if r.opcode == k_ping
        then (record response { status = k_ok }, mp)
        else if r.opcode == k_put
        then store_call mp response (put r)
        else if r.opcode == k_get
        then store_call mp response (get r)
        else store_call mp response (del r))
unfolding execute store_call
execute_lem mp r response h = ground arith

abbrev pub seen : KvResponse × Map → KvResponse × View
seen (a, mp) = (a, view mp)

pub view_execute_lem :
    (s : View) (r : KvRequest)
    → view_execute s r ≡ (
        if r.opcode == k_ping
        then (cleared k_ok, s)
        else if r.opcode == k_put
        then view_call s (put r)
        else if r.opcode == k_get
        then view_call s (get r)
        else view_call s (del r))
unfolding view_execute
view_execute_lem s r = refl

-- The switch answers as the abstract store tells.
pub execute-view_execute :
    (mp : Map) (r : KvRequest) (status : ℕ)
    → IsSendable r
    → seen (execute mp r (cleared status)) ≡ view_execute (view mp) r
execute-view_execute mp r status h =
    rw (execute_lem mp r (cleared status) h, view_execute_lem (view mp) r)
      (by_tests (r.opcode == k_ping) (r.opcode == k_put) (r.opcode == k_get))
  where
    by_tests :
        (a b c : Bool)
        → seen (
            if a
            then (cleared k_ok, mp)
            else if b
            then store_call mp (cleared status) (put r)
            else if c
            then store_call mp (cleared status) (get r)
            else store_call mp (cleared status) (del r))
          ≡ (if a
              then (cleared k_ok, view mp)
              else if b
              then view_call (view mp) (put r)
              else if c
              then view_call (view mp) (get r)
              else view_call (view mp) (del r))
    by_tests true b c = refl
    by_tests false true c = store_call-view_call mp (cleared status) (put r)
    by_tests false false true = store_call-view_call mp (cleared status) (get r)
    by_tests false false false = store_call-view_call mp (cleared status) (del r)

-- Within the limits, before and after.
pub record Sized (t : KvResponse × Map) : Type 0 where
  pub value : length t.0.value ≤ k_max_value_length
  pub store : IsBounded t.1

pub get_answer-Sized :
    (k : Bytes) (mp : Map)
    → IsBounded mp
    → length (get_answer k (find k mp)).value ≤ k_max_value_length
get_answer-Sized k mp h = elim (Option-cases (find k mp)) [
  | inl e ↦ rw e (omega arith)
  | inr (v, e) ↦ rw e (find-IsBounded k v mp h e)
]

pub del_answer-Sized :
    (k : Bytes) (o : Option Bytes) → length (del_answer k o).value ≤ k_max_value_length
del_answer-Sized k none = omega arith
del_answer-Sized k (some v) = omega arith

pub execute-Sized :
    (mp : Map) (r : KvRequest) (status : ℕ)
    → IsSendable r
    → IsBounded mp
    → Sized (execute mp r (cleared status))
unfolding store_call
execute-Sized mp r status h b = rw (execute_lem mp r (cleared status) h) (
    if_cases Sized (r.opcode == k_ping) (λ _. record { value = omega arith; store = b })
      (λ t.
        if_cases Sized (r.opcode == k_put) (λ e. put_Sized (ground arith))
          (λ _. if_cases Sized (r.opcode == k_get) (λ _. get_Sized) (λ _. del_Sized))))
  where
    put_Sized : r.opcode ≡ k_put → Sized (put_entry mp r (cleared status))
    put_Sized e =
        unfold put_entry in record { value = omega arith; store = put_store (ground arith) }
      where
        put_store :
            KeyFits r.key × (length r.value ≤ k_max_value_length)
            → IsBounded (assign r.key r.value mp)
        put_store (k, v) = assign-IsBounded r.key r.value mp k v b

    get_Sized : Sized (get_entry mp r (cleared status), mp)
    get_Sized = record {
      value = rw (get_entry_lem mp r (cleared status)) (get_answer-Sized r.key mp b);
      store = b;
    }

    del_Sized : Sized (del_entry mp r (cleared status))
    del_Sized = rw (del_entry_lem mp r (cleared status)) (record {
      value = del_answer-Sized r.key (find r.key mp);
      store = without-IsBounded r.key mp b;
    })
