-- ===== src/Kv/Store.antt =====
-- src/kv/kvstore.cpp. The std::unordered_map is an association list; the program never iterates over
-- it. Each operation holds the mutex from its first access to its last, so the operations of several
-- threads are one sequence of calls. A null pointer is `none`.
pub mod Laws
pub mod Refine
use reactor_learn.Prelude.{
  ℕ, Bool, true, false, Option, none, some, List, [], ◌∷◌, ◌&&◌, ◌==◌, if◌then◌else◌,
}
use reactor_learn.Kv.Protocol.{Bytes, KvRequest, KvResponse, k_ok, k_not_found}

-- `==` of two strings.
unfoldable pub bytes_eq : Bytes → Bytes → Bool
bytes_eq [] [] = true
bytes_eq [] (b ∷ bs) = false
bytes_eq (a ∷ as') [] = false
bytes_eq (a ∷ as') (b ∷ bs) = a == b && bytes_eq as' bs

abbrev pub Map : Type 0
Map = List (Bytes × Bytes)

-- `mp.find(key)`
unfoldable pub find : Bytes → Map → Option Bytes
unfolding bytes_eq
find k [] = none
find k ((j, v) ∷ m) = if bytes_eq j k then some v else find k m

-- `mp[key] = value`
unfoldable pub assign : Bytes → Bytes → Map → Map
unfolding bytes_eq
assign k v [] = (k, v) ∷ []
assign k v ((j, w) ∷ m) = if bytes_eq j k then (j, v) ∷ m else (j, w) ∷ assign k v m

-- `mp.erase(key)`: the map without the key, and how many entries went.
unfoldable pub without : Bytes → Map → Map
unfolding bytes_eq
without k [] = []
without k ((j, w) ∷ m) = let rest = without k m in if bytes_eq j k then rest else (j, w) ∷ rest

unfoldable pub erase : Bytes → Map → ℕ × Map
unfolding find without
erase k m = (elim (find k m) [ none ↦ 0 | some v ↦ 1 ], without k m)

-- `KVStore::Get`, `Put` and `Del` behind their test for null pointers.
unfoldable pub get_entry : Map → KvRequest → KvResponse → KvResponse
unfolding find
get_entry mp request response = elim (find request.key mp) [
  | none ↦ record response { status = k_not_found; key = request.key; value = []; extrainfo = [] }
  | some v ↦ record response { status = k_ok; key = request.key; value = v; extrainfo = [] }
]

unfoldable pub put_entry : Map → KvRequest → KvResponse → KvResponse × Map
unfolding assign
put_entry mp request response = (
  record response { status = k_ok; key = request.key; value = []; extrainfo = [] },
  assign request.key request.value mp,
)

unfoldable pub del_entry : Map → KvRequest → KvResponse → KvResponse × Map
unfolding erase
del_entry mp request response =
    let (count, mp') = erase request.key mp in
    (
      record response {
        status = if count == 0 then k_not_found else k_ok;
        key = request.key;
        value = [];
        extrainfo = [];
      },
      mp',
    )

unfoldable pub get : Map → Option KvRequest → Option KvResponse → Option KvResponse
unfolding get_entry
get mp none response = response
get mp (some request) none = none
get mp (some request) (some response) = some (get_entry mp request response)

unfoldable pub put : Map → Option KvRequest → Option KvResponse → Option KvResponse × Map
unfolding put_entry
put mp none response = (response, mp)
put mp (some request) none = (none, mp)
put mp (some request) (some response) =
    let (r, mp') = put_entry mp request response in (some r, mp')

unfoldable pub del : Map → Option KvRequest → Option KvResponse → Option KvResponse × Map
unfolding del_entry
del mp none response = (response, mp)
del mp (some request) none = (none, mp)
del mp (some request) (some response) =
    let (r, mp') = del_entry mp request response in (some r, mp')
