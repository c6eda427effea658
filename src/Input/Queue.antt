-- ===== src/Input/Queue.antt =====
-- What the event ring promises: a first-in first-out queue of at most 255 events that drops an event
-- when full and hands out the zero event when empty.
use holyos.Base.{ℕ, List, [], ◌∷◌, ◌++◌, Bool, true, false, ◌==◌, if◌then◌else◌, length}
use holyos.Input.{KeyEvent, zero_event, Call, push, pop, has_events, Reply, nothing, event, flag}

abbrev pub Queue : Type 0
Queue = List KeyEvent

abbrev pub capacity : ℕ
capacity = 255

abbrev pub is_empty : Queue → Bool
is_empty [] = true
is_empty (e ∷ q) = false

abbrev pub take_first : Queue → KeyEvent × Queue
take_first [] = (zero_event, [])
take_first (e ∷ q) = (e, q)

abbrev pub add_last : KeyEvent → Queue → Queue
add_last e q = if length q == capacity then q else q ++ e ∷ []

abbrev pub serve : Call → Queue → Reply × Queue
serve (push e) q = (nothing, add_last e q)
serve pop q = let (e, q') = take_first q in (event e, q')
serve has_events q = (flag (if is_empty q then false else true), q)

abbrev pub serve_all : List Call → Queue → List Reply × Queue
serve_all [] q = ([], q)
serve_all (c ∷ cs) q = let (r, q') = serve c q in let (rs, q'') = serve_all cs q' in (r ∷ rs, q'')
