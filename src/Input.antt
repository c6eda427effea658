-- ===== src/Input.antt =====
-- drivers/input/input.c and the types of include/kernel/input.h: the ring of key events. The driver
-- table of the same file is not modelled. `Queue` is what the ring promises, `Ring` its invariant and
-- `Refine` the refinement.
pub mod Queue
pub mod Ring
pub mod Refine
use holyos.Base.{
  ℕ, ◌+◌, ◌%◌, ◌≡◌, List, [], ◌∷◌, Bool, true, false, Run, done, spins, fault, ◌>>=◌, ◌!=◌,
  if◌then◌else◌, u32, set, get_or, replicate,
}
use holyos.Cpu.Spinlock.{spinlock_init, spinlock_lock, spinlock_unlock}

pub data KeyEventType : Type 0 where
  key_pressed key_released : KeyEventType

pub record KeyEvent : Type 0 where
  pub type : KeyEventType
  pub scancode : ℕ  -- uint8_t
  pub ascii : ℕ  -- char

-- `{0}`
abbrev pub zero_event : KeyEvent
zero_event = record { type = key_pressed; scancode = 0; ascii = 0 }

abbrev pub input_buffer_size : ℕ
input_buffer_size = 256

-- The static variables of the ring.
pub record Input : Type 0 where
  pub buffer : List KeyEvent
  pub head : ℕ
  pub tail : ℕ
  pub lock : ℕ

-- The part of `input_init` that sets up the ring; the buffer is static and starts as zeros.
unfoldable pub input_reset : Input → Input
unfolding spinlock_init
input_reset s = record s { lock = spinlock_init s.lock; head = 0; tail = 0 }

abbrev pub boot_input : Input
boot_input = record {
  buffer = replicate input_buffer_size zero_event;
  head = 0;
  tail = 0;
  lock = 0;
}

-- `buffer[head] = event; head = next;` unless the ring is full.
push_locked : KeyEvent → Input → Input
push_locked event s =
    let next = u32 (s.head + 1) % input_buffer_size in
    if next != s.tail then record s { buffer = set s.buffer s.head event; head = next } else s

unfoldable pub input_push_event : KeyEvent → Input → Run Input
unfolding spinlock_lock spinlock_unlock push_locked
input_push_event event s = do
  held ← spinlock_lock s.lock
  let s' = push_locked event (record s { lock = held })
  done (record s' { lock = spinlock_unlock s'.lock })

-- The event handed out and the state behind it.
pop_locked : Input → KeyEvent × Input
pop_locked s =
    if s.tail != s.head
    then (
      get_or s.buffer s.tail zero_event,
      record s { tail = u32 (s.tail + 1) % input_buffer_size },
    )
    else (zero_event, s)

unfoldable pub input_pop_event : Input → Run (KeyEvent × Input)
unfolding spinlock_lock spinlock_unlock pop_locked
input_pop_event s = do
  held ← spinlock_lock s.lock
  let (event, s') = pop_locked (record s { lock = held })
  done (event, record s' { lock = spinlock_unlock s'.lock })

unfoldable pub input_has_events : Input → Bool
input_has_events s = s.head != s.tail

-- The calls that the interrupt handler and the main loop make.
pub data Call : Type 0 where
  push : KeyEvent → Call
  pop : Call
  has_events : Call

pub data Reply : Type 0 where
  nothing : Reply
  event : KeyEvent → Reply
  flag : Bool → Reply

unfoldable pub call : Call → Input → Run (Reply × Input)
unfolding input_push_event input_pop_event input_has_events
call (push e) s = do s' ← input_push_event e s; done (nothing, s')
call pop s = do (e, s') ← input_pop_event s; done (event e, s')
call has_events s = done (flag (input_has_events s), s)

unfoldable pub run : List Call → Input → Run (List Reply × Input)
unfolding call
run [] s = done ([], s)
run (c ∷ cs) s = do (r, s') ← call c s; (rs, s'') ← run cs s'; done (r ∷ rs, s'')
