-- ===== src/Cpu/Interrupt.antt =====
-- kernel/cpu/interrupt.c, without its log output. A handler is a function on the number in the registers that it
-- is given and on the state `H` of the machine.
pub mod Dispatch
use holyos.Base.{
  ℕ, ◌-◌, ◌+◌, List, Option, none, some, Bool, ◌&&◌, if◌then◌else◌, Run, done, spins, fault, ◌>>=◌,
  ltb, leb, length, get_or, set,
}
use holyos.Cpu.Ports.{Ports}
use holyos.Cpu.Pic.{pic_unmask_irq, pic_send_eoi}

abbrev pub IsrHandler : Type 0 → Type 0
IsrHandler H = ℕ → H → Run (ℕ × H)

abbrev pub Handlers : Type 0 → Type 0
Handlers H = List (Option (IsrHandler H))

module _ {H : Type 0} (ports : Ports H) where
  unfoldable pub interrupt_register_handler :
      ℕ → Option (IsrHandler H) → Handlers H → H → Handlers H × H
  unfolding pic_unmask_irq
  interrupt_register_handler num handler handlers h = if leb 48 num then (handlers, h) else (
    set handlers num handler,
    (if leb 32 num && ltb num 48 then pic_unmask_irq ports (num - 32) h else h),
  )

  -- The end of interrupt, by the number that the handler leaves in the registers.
  unfoldable pub end_interrupt : ℕ → H → H
  unfolding pic_send_eoi
  end_interrupt int_no h =
      if leb 32 int_no && ltb int_no 48 then pic_send_eoi ports (int_no - 32) h else h

  -- Without a handler the kernel halts.
  unfoldable pub call_handler : Option (IsrHandler H) → ℕ → H → Run (ℕ × H)
  call_handler none int_no h = spins
  call_handler (some handler) int_no h = do
    (int_no, h) ← handler int_no h
    done (int_no, end_interrupt int_no h)

  -- The table has 48 entries, and a number behind them is a read out of it.
  unfoldable pub interrupt_handler : ℕ → Handlers H → H → Run (ℕ × H)
  unfolding call_handler
  interrupt_handler int_no handlers h =
      if ltb int_no (length handlers)
      then call_handler (get_or handlers int_no none) int_no h
      else fault
