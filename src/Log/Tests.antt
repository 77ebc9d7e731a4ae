-- ===== src/Log/Tests.antt =====
-- The logger at concrete texts.
use reactor_learn.Prelude.{
  some, true, none, ◌≡◌, refl, ap, List, [], ◌∷◌, ◌++◌, arith, length, take, ltb, if◌then◌else◌,
}
use reactor_learn.Log.Format.{
  Item, view, c_string, unsigned_number, negative_number, truth, put_items,
}
use reactor_learn.Log.Format.Items.{after_items, finish_line-put_items}
use reactor_learn.Log.Shutdown.{shut_down}
use reactor_learn.Log.Shutdown.Complete.{enough, shut_down-events}
use reactor_learn.Log.{construct, k_loggerbuffersize, start_line, finish_line, make_unique}
use reactor_learn.Log.Buffers.{length-make_unique}
use reactor_learn.Log.Stream.{
  Backend, Event, waits, appends, steps, events, kept, Stands, events-Stands, construct-IsValid,
}

abbrev start : Backend
start = record { log = construct; file = 1 ∷ []; opened = true; stage = waits }

start-Stands : Stands start (1 ∷ [])
start-Stands = record {
  valid = construct-IsValid.0;
  ready = construct-IsValid.1;
  pending = tt;
  opened = refl;
  all = ap (λ l. 1 ∷ l) construct-IsValid.2;
}

-- The second text comes between the taking of the first and its writing.
abbrev both : List Event
both = steps ∷ appends (72 ∷ []) ∷ steps ∷ appends (105 ∷ []) ∷ steps ∷ []

events-Stands_example : Stands (events both start) ((1 ∷ []) ++ kept both start)
events-Stands_example =
    events-Stands both start (1 ∷ []) (omega arith, (omega arith, tt)) start-Stands

shut_down-events_example :
    (t : Backend) × (shut_down true (enough 0) (events both start) ≡ some t)
    × (t.file ≡ (1 ∷ []) ++ kept both start)
shut_down-events_example =
    shut_down-events both start (1 ∷ []) 0 (omega arith, (omega arith, tt)) start-Stands

abbrev items : List Item
items = view (72 ∷ []) ∷ unsigned_number 105 ∷ truth true ∷ c_string none ∷ negative_number 7 ∷ []

finish_line-put_items_example :
    finish_line (put_items (start_line (make_unique k_loggerbuffersize)) items) ≡ (
      if ltb (length (after_items [] items)) k_loggerbuffersize
      then after_items [] items ++ (10 ∷ [])
      else take k_loggerbuffersize (after_items [] items))
finish_line-put_items_example =
    finish_line-put_items (make_unique k_loggerbuffersize) items
      (length-make_unique k_loggerbuffersize)
