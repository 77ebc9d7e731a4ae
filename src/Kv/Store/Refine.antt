-- ===== src/Kv/Store/Refine.antt =====
-- The store against its abstract view: a function from keys to values.
use reactor_learn.Prelude.{
  ℕ, ◌≡◌, refl, ap, fun_ext, Option, none, some, List, [], ◌∷◌, if◌then◌else◌, arith,
}
use reactor_learn.Kv.Protocol.{Bytes, KvRequest, KvResponse, k_ok, k_not_found}
use reactor_learn.Kv.Store.{
  bytes_eq, Map, find, assign, without, erase, get_entry, put_entry, del_entry,
}
use reactor_learn.Kv.Store.Laws.{find-assign, find-without}

abbrev pub View : Type 0
View = Bytes → Option Bytes

-- What the map looks like to its users: the order and the representation of its entries are gone.
abbrev pub view : Map → View
view m k = find k m

abbrev pub update : View → Bytes → Option Bytes → View
update s k o j = if bytes_eq k j then o else s j

-- A call of the store by some thread.
pub data Call : Type 0 where
  get put del : KvRequest → Call

unfoldable pub store_call : Map → KvResponse → Call → KvResponse × Map
store_call mp r (get q) = (get_entry mp q r, mp)
store_call mp r (put q) = put_entry mp q r
store_call mp r (del q) = del_entry mp q r

abbrev answer : ℕ → Bytes → Bytes → KvResponse
answer status key value = record { status = status; key = key; value = value; extrainfo = [] }

abbrev pub get_answer : Bytes → Option Bytes → KvResponse
get_answer k none = answer k_not_found k []
get_answer k (some v) = answer k_ok k v

abbrev pub del_answer : Bytes → Option Bytes → KvResponse
del_answer k none = answer k_not_found k []
del_answer k (some v) = answer k_ok k []

unfoldable pub view_call : View → Call → KvResponse × View
view_call s (get q) = (get_answer q.key (s q.key), s)
view_call s (put q) = (answer k_ok q.key [], update s q.key (some q.value))
view_call s (del q) = (del_answer q.key (s q.key), update s q.key none)

view-assign : (k v : Bytes) (m : Map) → view (assign k v m) ≡ update (view m) k (some v)
view-assign k v m = fun_ext λ j. find-assign k j v m

view-without : (k : Bytes) (m : Map) → view (without k m) ≡ update (view m) k none
view-without k m = fun_ext λ j. find-without k j m

pub get_entry_lem :
    (mp : Map) (q : KvRequest) (r : KvResponse)
    → get_entry mp q r ≡ get_answer q.key (find q.key mp)
unfolding get_entry
get_entry_lem mp q r = ground arith

pub del_entry_lem :
    (mp : Map) (q : KvRequest) (r : KvResponse)
    → del_entry mp q r ≡ (del_answer q.key (find q.key mp), without q.key mp)
unfolding del_entry erase
del_entry_lem mp q r = ground arith

-- Each call answers as the abstract view tells, whatever the response held before, and changes the
-- map as the abstract view changes.
pub store_call-view_call :
    (mp : Map) (r : KvResponse) (c : Call)
    → (let (answer, mp') = store_call mp r c in (answer, view mp')) ≡ view_call (view mp) c
unfolding store_call view_call
store_call-view_call mp r (get q) = rw (get_entry_lem mp q r)
store_call-view_call mp r (put q) =
    unfold put_entry in ap (λ (s : View). (answer k_ok q.key [], s)) (view-assign q.key q.value mp)
store_call-view_call mp r (del q) =
    rw (del_entry_lem mp q r)
      (ap (λ (s : View). (del_answer q.key (find q.key mp), s)) (view-without q.key mp))

unfoldable pub store_run : Map → List (Call × KvResponse) → List KvResponse
store_run mp [] = []
store_run mp ((c, r) ∷ cs) = let (answer, mp') = store_call mp r c in answer ∷ store_run mp' cs

unfoldable pub view_run : View → List (Call × KvResponse) → List KvResponse
view_run s [] = []
view_run s ((c, r) ∷ cs) = let (answer, s') = view_call s c in answer ∷ view_run s' cs

-- Any interleaving of the threads' calls answers as the abstract view does.
pub store_run-view_run :
    (cs : List (Call × KvResponse)) (mp : Map) → store_run mp cs ≡ view_run (view mp) cs
unfolding store_run view_run
store_run-view_run [] mp = refl
store_run-view_run ((c, r) ∷ cs) mp =
    rw (store_run-view_run cs (store_call mp r c).1, ← store_call-view_call mp r c)
