-- ===== src/Input/Refine.antt =====
-- The event ring behaves as the queue of its contents.
use holyos.Base.{
  ℕ, ◌+◌, ◌-◌, ◌%◌, ◌≡◌, refl, ◌∙◌, ap, List, [], ◌∷◌, true, false, done, ◌>>=◌, if◌then◌else◌, u32,
  arith, length-set,
}
use holyos.Input.{
  KeyEvent, Input, input_buffer_size, push_locked, pop_locked, input_push_event, input_pop_event,
  input_has_events, Call, push, pop, has_events, nothing, event, flag, call, run,
}
use holyos.Input.Queue.{is_empty, take_first, add_last, serve, serve_all}
use holyos.Input.Ring.{IsValid, window, count, contents, length-window, window_push, window_pop}

-- One call on a valid ring returns, and returns what the queue of its contents returns; the ring
-- afterwards is valid and holds the queue afterwards.
pub record Serves (c : Call) (s : Input) : Type 0 where
  pub after : Input
  pub returns : call c s ≡ done ((serve c (contents s)).0, after)
  pub valid : IsValid after
  pub holds : contents after ≡ (serve c (contents s)).1

push_after : KeyEvent → Input → Input
push_after e s = record (push_locked e (record s { lock = 1 })) { lock = 0 }

push_returns :
    (e : KeyEvent) (s : Input) → s.lock ≡ 0 → input_push_event e s ≡ done (push_after e s)
unfolding input_push_event push_after
push_returns e s free = ground arith

push-IsValid : (e : KeyEvent) {s : Input} → IsValid s → IsValid (push_after e s)
unfolding push_after push_locked
push-IsValid e {s} v = ground (arith, length-set s.buffer s.head e)

push-contents :
    (e : KeyEvent) {s : Input} → IsValid s → contents (push_after e s) ≡ add_last e (contents s)
unfolding push_after push_locked
push-contents e {s} v = ground (
  arith,
  length-window s.buffer s.tail (count s),
  window_push s.buffer s.tail (count s)
      ((u32 (s.head + 1) % input_buffer_size + input_buffer_size - s.tail) % input_buffer_size)
      s.head e,
)

-- Pushing into a valid ring returns, with the event behind those that it held unless it was full.
pub push-add_last :
    (e : KeyEvent) {s : Input}
    → IsValid s
    → (s' : Input) × (input_push_event e s ≡ done s')
      × IsValid s'
      × (contents s' ≡ add_last e (contents s))
push-add_last e {s} v =
    (push_after e s, push_returns e s v.free, push-IsValid e v, push-contents e v)

pop_after : Input → KeyEvent × Input
pop_after s = let (e, s') = pop_locked (record s { lock = 1 }) in (e, record s' { lock = 0 })

pop_returns : (s : Input) → s.lock ≡ 0 → input_pop_event s ≡ done (pop_after s)
unfolding input_pop_event pop_after
pop_returns s free = ground arith

pop-IsValid : {s : Input} → IsValid s → IsValid (pop_after s).1
unfolding pop_after pop_locked
pop-IsValid v = ground arith

pop-contents :
    {s : Input}
    → IsValid s
    → ((pop_after s).0 ≡ (take_first (contents s)).0)
      × (contents (pop_after s).1 ≡ (take_first (contents s)).1)
unfolding pop_after pop_locked
pop-contents {s} v = ground (
  arith,
  window_pop s.buffer s.tail (count s)
      ((s.head + input_buffer_size - u32 (s.tail + 1) % input_buffer_size) % input_buffer_size),
)

pub has_events_lem :
    (s : Input) → IsValid s → input_has_events s ≡ (if is_empty (contents s) then false else true)
unfolding input_has_events
has_events_lem s v = ground (
  arith,
  window_pop s.buffer s.tail (count s) (count s - 1),
  ap (λ (n : ℕ). window s.buffer s.tail n) {x = count s} {y = 0},
)

-- Popping from a valid ring returns, with the first event that it held and the others left.
pub pop-take_first :
    {s : Input}
    → IsValid s
    → (s' : Input) × (input_pop_event s ≡ done ((take_first (contents s)).0, s'))
      × IsValid s'
      × (contents s' ≡ (take_first (contents s)).1)
pop-take_first {s} v =
    let after = pop_after s in
    (
      after.1,
      pop_returns s v.free ∙ ap (λ e. done (e, after.1)) (pop-contents v).0,
      pop-IsValid v,
      (pop-contents v).1,
    )

call-Serves : (c : Call) (s : Input) → IsValid s → Serves c s
unfolding call
call-Serves (push e) s v = record {
  after = push_after e s;
  returns = ap (λ r. r >>= λ s'. done (nothing, s')) (push_returns e s v.free);
  valid = push-IsValid e v;
  holds = push-contents e v;
}
call-Serves pop s v = record {
  after = (pop_after s).1;
  returns =
      ap (λ r. r >>= λ (e, s'). done (event e, s')) (pop_returns s v.free)
      ∙ ap (λ e. done (event e, (pop_after s).1)) (pop-contents v).0;
  valid = pop-IsValid v;
  holds = (pop-contents v).1;
}
call-Serves has_events s v = record {
  after = s;
  returns = ap (λ b. done (flag b, s)) (has_events_lem s v);
  valid = v;
  holds = refl;
}

-- However a free ring with both indices in its buffer is used, every call returns, the replies are
-- those of the queue of its contents, and the ring still holds that queue at the end.
pub run_refines :
    (cs : List Call) (s : Input)
    → IsValid s
    → (s' : Input) × (run cs s ≡ done ((serve_all cs (contents s)).0, s'))
      × IsValid s'
      × (contents s' ≡ (serve_all cs (contents s)).1)
unfolding run
run_refines [] s v = (s, refl, v, refl)
run_refines (c ∷ cs) s v =
    let first = call-Serves c s v in
    let (s', returned, valid, holds) = run_refines cs first.after first.valid in
    (
      s',
      rw (first.returns, returned)
          (ap (λ q. done ((serve c (contents s)).0 ∷ (serve_all cs q).0, s')) first.holds),
      valid,
      holds ∙ ap (λ q. (serve_all cs q).1) first.holds,
    )
