-- ===== src/Cpu/Interrupt/Dispatch.antt =====
-- An interrupt reaches the handler that is registered for it, and the controller is told of its end.
use holyos.Base.{
  ℕ, ◌<◌, ◌≡◌, ◌≢◌, refl, Option, none, some, done, ◌>>=◌, length, set, get_or, ltb, if◌then◌else◌,
  arith, get_or-set_self, get_or-set_ne, length-set, sym,
}
use holyos.Cpu.Ports.{Ports}
use holyos.Cpu.Pic.{pic_send_eoi}
use holyos.Cpu.Interrupt.{
  IsrHandler, Handlers, interrupt_register_handler, end_interrupt, call_handler, interrupt_handler,
}

module _ {H : Type 0} (ports : Ports H) where
  registered :
      (num : ℕ) (handler : Option (IsrHandler H)) (handlers : Handlers H) (h : H)
      → num < 48
      → (interrupt_register_handler ports num handler handlers h).0 ≡ set handlers num handler
  unfolding interrupt_register_handler
  registered num handler handlers h small = ground arith

  handled :
      (num : ℕ) (handlers : Handlers H) (h : H)
      → num < length handlers
      → interrupt_handler ports num handlers h ≡ call_handler ports (get_or handlers num none) num h
  unfolding interrupt_handler
  handled num handlers h small = ground arith

  -- After `interrupt_register_handler` of a number below 48, the interrupt of this number calls the handler,
  -- and then ends the interrupt that the handler leaves in the registers; every other interrupt below 48 is
  -- handled as before.
  pub handler-register :
      (num other : ℕ) (handler : IsrHandler H) (handlers : Handlers H) (h h' : H)
      → length handlers ≡ 48
      → num < 48
      → other < 48
      → other ≢ num
      → let after = (interrupt_register_handler ports num (some handler) handlers h).0 in
        (interrupt_handler ports num after h'
          ≡ (handler num h' >>= λ (r : ℕ × H). done (r.0, end_interrupt ports r.0 r.1)))
        × (interrupt_handler ports other after h' ≡ interrupt_handler ports other handlers h')
  unfolding call_handler
  handler-register num other handler handlers h h' size small other_small ne =
      let kept = length-set handlers num (some handler) in
      (
        rw
            (
              registered num (some handler) handlers h small,
              handled num (set handlers num (some handler)) h' (omega arith),
              get_or-set_self handlers num (some handler) none (omega arith),
            )
            refl,
        rw
            (
              registered num (some handler) handlers h small,
              handled other (set handlers num (some handler)) h' (omega arith),
              get_or-set_ne handlers num other (some handler) none (λ e. ne (sym e)),
              handled other handlers h' (omega arith),
            )
            refl,
      )

  -- The end of an interrupt that the controllers raise is told to the first controller, and to the second
  -- before it for the numbers from 40 on; other interrupts are told to none.
  pub end_interrupt_lem :
      (int_no : ℕ) (h : H)
      → end_interrupt ports int_no h ≡ (
          if ltb int_no 32
          then h
          else if ltb int_no 40
          then ports.outb 0x20 0x20 h
          else if ltb int_no 48
          then ports.outb 0x20 0x20 (ports.outb 0xa0 0x20 h)
          else h)
  unfolding end_interrupt pic_send_eoi
  end_interrupt_lem int_no h = ground arith
