-- ===== src/Ps2/I8042.antt =====
-- drivers/input/ps2/i8042.c and i8042.h. A polling loop takes fuel: `spins` is a device that did not
-- become ready within that many polls.
pub mod Poll
use holyos.Base.{
  ℕ, zero, suc, Bool, true, false, ◌||◌, Run, done, spins, fault, ◌>>=◌, ◌>>◌, ◌==◌, ◌!=◌,
  if◌then◌else◌, bit_and,
}
use holyos.Cpu.Ports.{Ports}

abbrev pub data_port : ℕ
data_port = 0x60

abbrev pub status_port : ℕ
status_port = 0x64

abbrev pub cmd_port : ℕ
cmd_port = 0x64

abbrev pub status_output_full : ℕ
status_output_full = 1

abbrev pub status_input_full : ℕ
status_input_full = 2

abbrev pub cmd_disable_kbd : ℕ
cmd_disable_kbd = 0xad

abbrev pub cmd_enable_kbd : ℕ
cmd_enable_kbd = 0xae

abbrev pub cmd_disable_mouse : ℕ
cmd_disable_mouse = 0xa7

abbrev pub cmd_enable_mouse : ℕ
cmd_enable_mouse = 0xa8

module _ {H : Type 0} (ports : Ports H) where
  -- `while (!(inb(I8042_STATUS_PORT) & I8042_STATUS_OUTPUT_FULL));`
  unfoldable pub wait_output : ℕ → H → Run H
  wait_output zero h = spins
  wait_output (suc fuel) h =
      let (status, h') = ports.inb status_port h in
      let again = wait_output fuel h' in
      if bit_and status status_output_full == 0 then again else done h'

  -- `while ((inb(I8042_STATUS_PORT) & I8042_STATUS_INPUT_FULL));`
  unfoldable pub wait_input : ℕ → H → Run H
  wait_input zero h = spins
  wait_input (suc fuel) h =
      let (status, h') = ports.inb status_port h in
      let again = wait_input fuel h' in
      if bit_and status status_input_full != 0 then again else done h'

  unfoldable pub i8042_read_data : ℕ → H → Run (ℕ × H)
  i8042_read_data fuel h = do h' ← wait_output fuel h; done (ports.inb data_port h')

  unfoldable pub i8042_write_data : ℕ → ℕ → H → Run H
  i8042_write_data fuel byte h = do h' ← wait_input fuel h; done (ports.outb data_port byte h')

  unfoldable pub i8042_write_cmd : ℕ → ℕ → H → Run H
  i8042_write_cmd fuel cmd h = do h' ← wait_input fuel h; done (ports.outb cmd_port cmd h')

  -- `while (inb(I8042_STATUS_PORT) & 0x1) inb(I8042_DATA_PORT);`
  unfoldable pub drain : ℕ → H → Run H
  drain zero h = spins
  drain (suc fuel) h =
      let (status, h') = ports.inb status_port h in
      let again = drain fuel (ports.inb data_port h').1 in
      if bit_and status 1 != 0 then again else done h'

  unfoldable pub i8042_init : ℕ → H → Run H
  unfolding i8042_write_cmd drain
  i8042_init fuel h = do
    h ← i8042_write_cmd fuel cmd_disable_kbd h
    h ← i8042_write_cmd fuel cmd_disable_mouse h
    h ← drain fuel h
    h ← i8042_write_cmd fuel cmd_enable_kbd h
    i8042_write_cmd fuel cmd_enable_mouse h

  -- The commands that follow a status which shows a controller.
  unfoldable pub self_test : ℕ → H → Run (Bool × H)
  unfolding i8042_write_cmd i8042_read_data
  self_test fuel h = do
    h ← i8042_write_cmd fuel cmd_disable_kbd h
    h ← i8042_write_cmd fuel cmd_disable_mouse h
    h ← i8042_write_cmd fuel 0xaa h
    (response, h) ← i8042_read_data fuel h
    if response != 0x55 then done (false, h) else do
      h ← i8042_write_cmd fuel cmd_enable_kbd h
      h ← i8042_write_cmd fuel cmd_enable_mouse h
      done (true, h)

  unfoldable pub i8042_check : ℕ → H → Run (Bool × H)
  unfolding self_test
  i8042_check fuel h =
      let (status, h') = ports.inb status_port h in
      if status == 0 || status == 0xff then done (false, h') else self_test fuel h'
