-- ===== src/Input/Ring.antt =====
-- The representation of the queue: the events from `tail` up to `head`, round the end of the buffer.
use holyos.Base.{
  ℕ, zero, suc, ◌+◌, ◌-◌, ◌%◌, ◌<◌, ◌≡◌, ◌≢◌, refl, ap, ap₂, ◌∙◌, List, [], ◌∷◌, ◌++◌, arith,
  length, get_or, set, get_or-set_self, get_or-set_ne,
}
use holyos.Input.{KeyEvent, zero_event, Input, input_buffer_size, input_reset}

-- Between two calls the lock is free and both indices are in the buffer.
pub record IsValid (s : Input) : Type 0 where
  pub storage : length s.buffer ≡ input_buffer_size
  pub head_in : s.head < input_buffer_size
  pub tail_in : s.tail < input_buffer_size
  pub free : s.lock ≡ 0

-- The `n` events from index `h` on.
abbrev pub window : List KeyEvent → ℕ → ℕ → List KeyEvent
window buffer h zero = []
window buffer h (suc n) = get_or buffer h zero_event ∷ window buffer ((h + 1) % input_buffer_size) n

abbrev pub count : Input → ℕ
count s = (s.head + input_buffer_size - s.tail) % input_buffer_size

abbrev pub contents : Input → List KeyEvent
contents s = window s.buffer s.tail (count s)

pub length-window : (buffer : List KeyEvent) (h n : ℕ) → length (window buffer h n) ≡ n
length-window buffer h zero = refl
length-window buffer h (suc n) = ap suc (length-window buffer ((h + 1) % input_buffer_size) n)

-- A write behind the window's end leaves the window alone.
window-set :
    (buffer : List KeyEvent) (h n i : ℕ) (e : KeyEvent)
    → ((k : ℕ) → k < n → (h + k) % input_buffer_size ≢ i)
    → h < input_buffer_size
    → window (set buffer i e) h n ≡ window buffer h n
window-set buffer h zero i e out bound = refl
window-set buffer h (suc n) i e out bound =
    ap₂ ◌∷◌ (get_or-set_ne buffer i h e zero_event (λ p. out 0 (omega arith) (omega arith))) (
      window-set buffer ((h + 1) % input_buffer_size) n i e
        (λ k below p. out (suc k) (omega arith) (omega arith)) (omega arith))

window_snoc :
    (buffer : List KeyEvent) (h n : ℕ)
    → h < input_buffer_size
    → window buffer h (suc n)
      ≡ window buffer h n ++ get_or buffer ((h + n) % input_buffer_size) zero_event ∷ []
window_snoc buffer h zero bound = ap (λ i. get_or buffer i zero_event ∷ []) (omega arith)
window_snoc buffer h (suc n) bound =
    ap (λ es. get_or buffer h zero_event ∷ es)
      (window_snoc buffer ((h + 1) % input_buffer_size) n (omega arith)
        ∙ ap (λ i. window buffer ((h + 1) % input_buffer_size) n ++ get_or buffer i zero_event ∷ [])
            (omega arith))

-- Storing an event behind a window that does not fill the buffer extends the window by it.
pub window_push :
    (buffer : List KeyEvent) (h n m i : ℕ) (e : KeyEvent)
    → length buffer ≡ input_buffer_size
    → h < input_buffer_size
    → n < input_buffer_size
    → m ≡ suc n
    → i ≡ (h + n) % input_buffer_size
    → window (set buffer i e) h m ≡ window buffer h n ++ e ∷ []
window_push buffer h n m i e size bound room more at =
    ap (λ k. window (set buffer i e) h k) more
    ∙ window_snoc (set buffer i e) h n bound
    ∙ ap₂ (λ es x. es ++ x ∷ []) (window-set buffer h n i e (λ k below p. omega arith) bound)
        (ap (λ j. get_or (set buffer i e) j zero_event) (omega arith)
          ∙ get_or-set_self buffer i e zero_event (omega arith))

-- A window that holds something begins with the event at its start.
pub window_pop :
    (buffer : List KeyEvent) (h n m : ℕ)
    → n ≡ suc m
    → window buffer h n ≡ get_or buffer h zero_event ∷ window buffer ((h + 1) % input_buffer_size) m
window_pop buffer h n m more = ap (λ k. window buffer h k) more

-- The static initial state, and what `input_init` makes of any buffer of the right size, is valid and
-- empty.
pub reset-IsValid :
    (s : Input)
    → length s.buffer ≡ input_buffer_size
    → IsValid (input_reset s) × (contents (input_reset s) ≡ [])
unfolding input_reset
reset-IsValid s h = (omega arith, refl)
