-- ===== src/Serial/Output.antt =====
-- What `kprintf` sends over the line.
use holyos.Base.{
  ℕ, zero, suc, ◌+◌, ◌^◌, ◌<◌, ◌≤◌, ◌≡◌, ◌≢◌, refl, sym, ◌∙◌, ap, List, [], ◌∷◌, ◌++◌, map, Run,
  done, ==_ne, u8, bit_and, arith, length, take,
}
use mathlib.Core.List.{append_assoc, append-nil}
use holyos.Cpu.Ports.{Ports}
use holyos.Print.Pieces.{Piece}
use holyos.Print.Format.{format_of, args_of, text_of, AreProper, vsnprintf_lem}
use holyos.Serial.{com1, is_transmit_empty, serial_write, write_all, kprintf}

-- What the chip promises of its transmitter. Bit 5 of the line status register is set when the holding register
-- is empty. A byte that is written to an empty holding register is sent next, and keeps the transmitter busy
-- for at most `slow` polls. Of a byte that is written while it is busy nothing is promised.
pub record Line {H : Type 0} (ports : Ports H) : Type 0 where
  pub busy : H → ℕ
  pub sent : H → List ℕ
  pub slow : ℕ
  pub poll_idle :
      (h : H)
      → busy h ≡ 0
      → (bit_and (ports.inb (com1 + 5) h).0 0x20 ≢ 0)
        × (busy (ports.inb (com1 + 5) h).1 ≡ 0)
        × (sent (ports.inb (com1 + 5) h).1 ≡ sent h)
  pub poll_busy :
      (h : H) (left : ℕ)
      → busy h ≡ suc left
      → (bit_and (ports.inb (com1 + 5) h).0 0x20 ≡ 0)
        × (busy (ports.inb (com1 + 5) h).1 ≡ left)
        × (sent (ports.inb (com1 + 5) h).1 ≡ sent h)
  pub transmit :
      (h : H) (c : ℕ)
      → busy h ≡ 0
      → (sent (ports.outb com1 c h) ≡ sent h ++ c ∷ []) × (busy (ports.outb com1 c h) ≤ slow)

module _ {H : Type 0} (ports : Ports H) (line : Line ports) where
  -- A call that returns with the bytes `cs` sent behind those before.
  pub record Sends (cs : List ℕ) (h : H) (result : Run H) : Type 0 where
    pub hardware : H
    pub returns : result ≡ done hardware
    pub sends : line.sent hardware ≡ line.sent h ++ cs
    pub soon : line.busy hardware ≤ line.slow

  sends_now :
      (rounds c : ℕ) (h : H)
      → bit_and (ports.inb (com1 + 5) h).0 0x20 ≢ 0
      → serial_write ports (suc rounds) c h
        ≡ done (ports.outb com1 (u8 c) (ports.inb (com1 + 5) h).1)
  unfolding serial_write is_transmit_empty
  sends_now rounds c h empty = rw (==_ne (bit_and (ports.inb (com1 + 5) h).0 0x20) 0 empty) refl

  waits :
      (rounds c : ℕ) (h : H)
      → bit_and (ports.inb (com1 + 5) h).0 0x20 ≡ 0
      → serial_write ports (suc rounds) c h ≡ serial_write ports rounds c (ports.inb (com1 + 5) h).1
  unfolding serial_write is_transmit_empty
  waits rounds c h full = rw full refl

  serial_write-Sends :
      (left rounds c : ℕ) (h : H)
      → line.busy h ≡ left
      → left < rounds
      → Sends (u8 c ∷ []) h (serial_write ports rounds c h)
  serial_write-Sends left zero c h busy enough = absurd (omega arith)
  serial_write-Sends zero (suc rounds) c h busy enough =
      let (empty, still, same) = line.poll_idle h busy in
      let (sent, soon) = line.transmit (ports.inb (com1 + 5) h).1 (u8 c) still in
      record {
        hardware = ports.outb com1 (u8 c) (ports.inb (com1 + 5) h).1;
        returns = sends_now rounds c h empty;
        sends = sent ∙ ap (λ cs. cs ++ u8 c ∷ []) same;
        soon = soon;
      }
  serial_write-Sends (suc left) (suc rounds) c h busy enough =
      let (full, nearer, same) = line.poll_busy h left busy in
      let later =
        serial_write-Sends left rounds c (ports.inb (com1 + 5) h).1 nearer (omega arith) in
      record {
        hardware = later.hardware;
        returns = waits rounds c h full ∙ later.returns;
        sends = later.sends ∙ ap (λ cs. cs ++ u8 c ∷ []) same;
        soon = later.soon;
      }

  write_all-Sends :
      (rounds : ℕ) (cs rest : List ℕ) (h : H)
      → line.slow < rounds
      → line.busy h ≤ line.slow
      → Sends (map u8 cs) h (write_all ports rounds (length cs) (cs ++ rest) h)
  unfolding write_all
  write_all-Sends rounds [] rest h enough soon = record {
    hardware = h;
    returns = refl;
    sends = sym (append-nil (line.sent h));
    soon = soon;
  }
  write_all-Sends rounds (c ∷ cs) rest h enough soon =
      let first = serial_write-Sends (line.busy h) rounds c h refl (omega arith) in
      let later = write_all-Sends rounds cs rest first.hardware enough first.soon in
      record {
        hardware = later.hardware;
        returns = rw first.returns later.returns;
        sends =
            later.sends
            ∙ ap (λ bs. bs ++ map u8 cs) first.sends
            ∙ append_assoc (line.sent h) (u8 c ∷ []) (map u8 cs);
        soon = later.soon;
      }

  -- On a line whose transmitter is ready again within fewer polls than a busy-wait makes, with a buffer of 4096 bytes and 32 bytes
  -- for numbers on the stack, `kprintf` of a format of proper pieces and their arguments returns, and
  -- what the line has sent then is what it had sent before and the text that the pieces stand for, cut at 4095
  -- characters, each of its characters once and in their order.
  pub kprintf-Sends :
      (rounds base : ℕ) (locals scratch : List ℕ) (ps : List Piece) (rest : List ℕ) (h : H)
      → line.slow < rounds
      → line.busy h ≤ line.slow
      → base + 4096 ≤ 2 ^ 32
      → length locals ≡ 4096
      → length scratch ≡ 32
      → AreProper ps
      → Sends
          (map u8 (take 4095 (text_of ps)))
          h
          (kprintf ports rounds base locals scratch (format_of ps ++ 0 ∷ rest) (args_of ps) h)
  unfolding kprintf
  kprintf-Sends rounds base locals scratch ps rest h enough soon address room numbers proper =
      let (behind, printed, size) =
        vsnprintf_lem base 4095 scratch ps rest locals (omega arith) numbers proper (omega arith) in
      rw printed (write_all-Sends rounds (take 4095 (text_of ps)) (0 ∷ behind) h enough soon)
