-- ===== src/Kv/Store/Laws.antt =====
-- The map's operations against `find`.
use reactor_learn.Prelude.{◌≡◌, refl, ◌↔◌, true, none, some, [], ◌∷◌, if◌then◌else◌, arith}
use reactor_learn.Kv.Protocol.{Bytes}
use reactor_learn.Kv.Store.{bytes_eq, Map, find, assign, without}

pub bytes_eq_iff : (as' bs : Bytes) → (bytes_eq as' bs ≡ true) ↔ (as' ≡ bs)
unfolding bytes_eq
bytes_eq_iff [] [] = ground arith
bytes_eq_iff [] (b ∷ bs) = ground arith
bytes_eq_iff (a ∷ as') [] = ground arith
bytes_eq_iff (a ∷ as') (b ∷ bs) = ground (arith, bytes_eq_iff as' bs)

pub bytes_eq_refl : (k : Bytes) → bytes_eq k k ≡ true
bytes_eq_refl k = (bytes_eq_iff k k).1 refl

pub find-assign :
    (k j v : Bytes) (m : Map) → find j (assign k v m) ≡ (if bytes_eq k j then some v else find j m)
unfolding find assign
find-assign k j v [] = refl
find-assign k j v ((i, w) ∷ m) =
    ground (arith, bytes_eq_iff k j, bytes_eq_iff i k, bytes_eq_iff i j, find-assign k j v m)

pub find-without :
    (k j : Bytes) (m : Map) → find j (without k m) ≡ (if bytes_eq k j then none else find j m)
unfolding find without
find-without k j [] = ground arith
find-without k j ((i, w) ∷ m) =
    ground (arith, bytes_eq_iff k j, bytes_eq_iff i k, bytes_eq_iff i j, find-without k j m)
