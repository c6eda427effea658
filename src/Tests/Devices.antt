-- ===== src/Tests/Devices.antt =====
-- The locks, the keyboard's devices and the event ring.
use holyos.Base.{ℕ, ◌+◌, ◌≤◌, ◌≡◌, refl, List, [], ◌∷◌, done, ◌==◌, if◌then◌else◌, arith}
use holyos.Cpu.Ports.{Ports}
use holyos.Cpu.Spinlock.{spinlock_lock}
use holyos.Cpu.Spinlock.Interleave.{
  outside, exchanging, critical, System, move, Reach, here, next, start, holders, advance,
  mutual_exclusion,
}
use holyos.Cpu.Pic.{data_port_of}
use holyos.Cpu.Pic.Masks.{ReadsBack}
use holyos.Input.{KeyEvent, key_pressed, Input, boot_input, Call, push, pop, has_events, run}
use holyos.Input.Queue.{add_last, serve_all}
use holyos.Ps2.Keyboard.{decode, ps2kbd_handler}
use holyos.Ps2.Keyboard.Handler.{answer, ps2kbd_handler_lem}
use holyos.Input.Ring.{IsValid, contents}
use holyos.Input.Refine.{run_refines}
use holyos.Ps2.I8042.{status_port}
use holyos.Ps2.Keyboard.Typing.{decode_all, strokes_all, characters, decode-strokes_all}

-- One register, which every port writes and reads.
abbrev latch : Ports ℕ
latch = record {
  inb = λ port h. (h, h);
  outb = λ port v h. v;
  inl = λ port h. (h, h);
  outl = λ port v h. v;
}

-- A controller whose status shows output from the third read on; the state counts the reads.
abbrev slow_device : Ports ℕ
slow_device = record {
  inb = λ port h. (if port == status_port then (if h == 2 then 1 else 0) else 0x1e, h + 1);
  outb = λ port v h. h;
  inl = λ port h. (0, h);
  outl = λ port v h. h;
}

free_lock_taken : spinlock_lock 0 ≡ done 1
unfolding spinlock_lock
free_lock_taken = refl

-- Processor 0 goes to its exchange and through it.
abbrev processor_0_inside : System
processor_0_inside = record { word = 1; cpus = critical ∷ outside ∷ [] }

processor_0_enters : Reach (start 2) processor_0_inside
unfolding advance
processor_0_enters = next (next here (move 0 {p = outside} refl)) (move 0 {p = exchanging} refl)

mutual_exclusion_example :
    (holders processor_0_inside.cpus ≤ 1)
    × (processor_0_inside.word ≡ holders processor_0_inside.cpus)
mutual_exclusion_example = mutual_exclusion 2 processor_0_enters

masked_at_first : ReadsBack latch (data_port_of 3)
masked_at_first v h byte = refl

abbrev key_a : KeyEvent
key_a = record { type = key_pressed; scancode = 0x1e; ascii = b'a' }

abbrev calls : List Call
calls = has_events ∷ push key_a ∷ push key_a ∷ pop ∷ has_events ∷ pop ∷ pop ∷ []

boot_input-IsValid : IsValid boot_input
boot_input-IsValid = record {
  storage = refl;
  head_in = omega arith;
  tail_in = omega arith;
  free = refl;
}

run_refines_example :
    (s' : Input) × (run calls boot_input ≡ done ((serve_all calls (contents boot_input)).0, s'))
    × IsValid s'
    × (contents s' ≡ (serve_all calls (contents boot_input)).1)
run_refines_example = run_refines calls boot_input boot_input-IsValid

ps2kbd_handler_lem_example :
    (input' : Input) × (ps2kbd_handler slow_device 3 1 boot_input 0
      ≡ done ((decode 1 (answer slow_device 2 0).0).0, input', (answer slow_device 2 0).1))
    × IsValid input'
    × (contents input' ≡ add_last (decode 1 (answer slow_device 2 0).0).1 (contents boot_input))
ps2kbd_handler_lem_example =
    ps2kbd_handler_lem slow_device 2 3 1 0 (omega arith) (refl, (refl, tt)) refl boot_input-IsValid

abbrev greeting : List ℕ
greeting = b'H' ∷ b'i' ∷ b'!' ∷ []

decode-strokes_all_example :
    ((decode_all 0 (strokes_all greeting)).0 ≡ 0)
    × (characters (decode_all 0 (strokes_all greeting)).1 ≡ greeting)
decode-strokes_all_example =
    decode-strokes_all greeting
      ((omega arith, omega arith, (omega arith, omega arith, (omega arith, omega arith, tt))))
