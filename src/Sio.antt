-- ===== src/Sio.antt =====
-- kernel/sio.c, the serial driver: its buffers, and what it writes to the registers of the UART. The
-- interrupt handler's receiving half, which reaches the process queues, is in Sio.Interrupt.
pub mod Output
pub mod Line
pub mod Enable
pub mod Input
pub mod Reading
pub mod Write
pub mod Transmit
pub mod Interrupt
use os_team.Base.{
  ℕ, zero, suc, ◌+◌, ◌-◌, ◌/◌, ◌%◌, Bool, true, false, not, ◌&&◌, ◌||◌, ltb, leb, ◌==◌,
  if◌then◌else◌, Option, none, some, List, [], ◌∷◌, ◌++◌, Cmd, pure, get, put, halt, fault,
  out_of_fuel, ◌>>=◌, ◌>>◌,
}
use os_team.Base.Chain.{Ptr, update}
use os_team.Base.Circular.{wrap_at}
use os_team.Text.Memory.{Memory}
use os_team.Text.Words.{strlen}

abbrev pub buf_size : ℕ
buf_size = 1024

-- The registers that the driver writes.
pub data Port : Type 0 where
  ua4_txd ua4_ier ua5_fcr ua4_lcr ua4_dll ua4_dlm ua4_mcr : Port

-- The globals of the module. A `char *` into a buffer is an index; `sending` is the flag; `written` is
-- what went to the registers, in order.
pub record Sio : Type 0 where
  pub inbuffer : Memory
  pub inlast : ℕ
  pub innext : ℕ
  pub incount : ℕ
  pub outbuffer : Memory
  pub outlast : ℕ
  pub outnext : ℕ
  pub outcount : ℕ
  pub sending : Bool
  pub ier : ℕ
  pub written : List (Port × ℕ)

-- `outb` of a byte
abbrev pub outb : Port → ℕ → Cmd Sio (Unit {0})
outb port v s = put (record s { written = s.written ++ (port, v) ∷ [] }) s

-- `v & bit`, `v | bit` and `v & ~bit`, where `bit` is a power of two.
abbrev pub has_bit : (bit v : ℕ) → Bool
has_bit bit v = v / bit % 2 == 1

abbrev pub set_bit : (bit v : ℕ) → ℕ
set_bit bit v = if has_bit bit v then v else v + bit

abbrev pub clear_bit : (bit v : ℕ) → ℕ
clear_bit bit v = if has_bit bit v then v - bit else v

abbrev pub sio_tx : ℕ
sio_tx = 1

abbrev pub sio_rx : ℕ
sio_rx = 2

abbrev pub ier_rx_ie : ℕ
ier_rx_ie = 1

abbrev pub ier_tx_ie : ℕ
ier_tx_ie = 2

-- The new value of `ier`, in the register if there was a change; the result is the old one.
unfoldable pub set_ier : ℕ → Cmd Sio ℕ
set_ier v s =
    let new = record s { ier = v } in
    if s.ier == v then pure s.ier new else (outb Port.ua4_ier v >> pure s.ier) new

-- `sio_enable`
unfoldable pub enable : (which : ℕ) → Cmd Sio ℕ
enable which s =
    let tx = if has_bit sio_tx which then set_bit ier_tx_ie s.ier else s.ier in
    let rx = if has_bit sio_rx which then set_bit ier_rx_ie tx else tx in set_ier rx s

-- `sio_disable`
unfoldable pub disable : (which : ℕ) → Cmd Sio ℕ
disable which s =
    let tx = if has_bit sio_tx which then clear_bit ier_tx_ie s.ier else s.ier in
    let rx = if has_bit sio_rx which then clear_bit ier_rx_ie tx else tx in set_ier rx s

-- `*outlast++ = ch`, a fault outside the buffer.
unfoldable pub store_out : (ch : ℕ) → Cmd Sio (Unit {0})
store_out ch s =
    if ltb s.outlast buf_size
    then pure tt
        (record s { outbuffer = update s.outbuffer s.outlast (ch % 256); outlast = s.outlast + 1 })
    else halt fault s

-- `++outcount`
unfoldable pub count_out : Cmd Sio (Unit {0})
count_out s = put (record s { outcount = s.outcount + 1 }) s

-- The pointer of a circular buffer, wrapped around.
abbrev pub wrap : ℕ → ℕ
wrap i = wrap_at buf_size i

unfoldable pub wrap_out : Cmd Sio (Unit {0})
wrap_out s = put (record s { outlast = wrap s.outlast }) s

-- `sio_writec`, after the mapping of a newline.
unfoldable pub send_char : (ch : ℕ) → Cmd Sio (Unit {0})
send_char ch s =
    if s.sending
    then (store_out ch >> count_out) s
    else (outb Port.ua4_txd (ch % 256) >> (enable sio_tx >>= λ _. pure tt))
        (record s { sending = true })

abbrev pub newline : ℕ
newline = 10

abbrev pub return_char : ℕ
return_char = 13

-- `sio_writec`; the inner call, of a character that is not a newline, does not call again.
unfoldable pub writec : (ch : ℕ) → Cmd Sio (Unit {0})
writec ch = if ch == newline then send_char return_char >> send_char ch else send_char ch

-- The loop of `sio_write`, with the characters of the buffer that are left.
unfoldable pub copy_out : Memory → (left : ℕ) (ptr : Ptr) (copied : ℕ) → Cmd Sio ℕ
copy_out mem zero ptr copied = pure copied
copy_out mem (suc left) ptr copied = do
  s ← get
  if leb buf_size s.outcount
      then pure copied
      else do store_out (mem ptr); wrap_out; count_out; copy_out mem left (ptr + 1) (copied + 1)

-- `sio_write`; a negative length acts as 0.
unfoldable pub write : Memory → (buffer : Ptr) (length : ℕ) → Cmd Sio ℕ
write mem buffer length = do
  s ← get
  let first = if s.sending then 0 else 1
  copied ← copy_out mem (length - first) (buffer + first) first
  s' ← get
  if s'.sending then pure copied else do writec (mem buffer); pure copied

-- `sio_puts`, with the characters in which the NUL is looked for.
unfoldable pub puts : (fuel : ℕ) → Memory → (buffer : Ptr) → Cmd Sio ℕ
puts fuel mem buffer = elim (strlen fuel mem buffer) [
  | none ↦ halt out_of_fuel
  | some n ↦ write mem buffer n >>= λ _. pure n
]

-- `sio_putchar`; the buffer is on the stack.
unfoldable pub putchar : (ch : ℕ) → Cmd Sio (Unit {0})
putchar ch = write (λ a. if a == 0 then ch % 256 else 0) 0 1 >>= λ _. pure tt

-- The `UA4_IIR_TX` case of `sio_isr`.
unfoldable pub transmit : Cmd Sio (Unit {0})
transmit s =
    if s.sending && ltb 0 s.outcount
    then (outb Port.ua4_txd (s.outbuffer s.outnext)
          >> (λ t. put (record t { outnext = wrap (t.outnext + 1); outcount = t.outcount - 1 }) t))
        s
    else (disable sio_tx >>= λ _. pure tt)
        (record s { outcount = 0; outlast = 0; outnext = 0; sending = false })

-- The part of the `UA4_IIR_RX` case of `sio_isr` for a character that no process waits for.
unfoldable pub store_in : (ch : ℕ) → Cmd Sio (Unit {0})
store_in ch s =
    if ltb s.incount buf_size
    then if ltb s.inlast buf_size
      then pure tt (record s {
        inbuffer = update s.inbuffer s.inlast (ch % 256);
        inlast = s.inlast + 1;
        incount = s.incount + 1;
      })
      else halt fault s
    else pure tt s

-- `sio_flush`; the characters that it discards from the receiver are not in the state.
unfoldable pub flush : (which : ℕ) → Cmd Sio (Unit {0})
flush which s =
    let i = if has_bit sio_rx which then record s { incount = 0; inlast = 0; innext = 0 } else s in
    put
      (if has_bit sio_tx which
        then record i { outcount = 0; outlast = 0; outnext = 0; sending = false }
        else i)
      s

-- `sio_inq_length`
unfoldable pub inq_length : Cmd Sio ℕ
inq_length s = pure s.incount s

-- The end of `sio_readc` and `sio_read`.
unfoldable pub reset_in : Sio → Sio
reset_in s = if ltb s.incount 1 then record s { inlast = 0; innext = 0 } else s

-- `*innext++`, a fault outside the buffer, and `--incount`.
unfoldable pub take_in : Cmd Sio ℕ
take_in s =
    if ltb s.innext buf_size
    then pure (s.inbuffer s.innext) (record s { innext = s.innext + 1; incount = s.incount - 1 })
    else halt fault s

-- `sio_readc`; `none` is -1.
unfoldable pub readc : Cmd Sio (Option ℕ)
readc s =
    if ltb 0 s.incount then (take_in >>= λ ch. λ t. pure (some ch) (reset_in t)) s else pure none s

-- The loop of `sio_read`, with the room left in the user's buffer: what it copies, in order.
unfoldable pub copy_in : (room : ℕ) → Cmd Sio (List ℕ)
copy_in zero = pure []
copy_in (suc room) = do
  s ← get
  if s.incount == 0 then pure [] else do
    ch ← take_in
    t ← get
    put (if ltb buf_size t.innext then record t { innext = 0 } else t)
    rest ← copy_in room
    pure (ch ∷ rest)

-- `sio_read`: the characters that it copies to the user's buffer; the result is their number.
unfoldable pub read : (length : ℕ) → Cmd Sio (List ℕ)
read length s =
    if ltb s.incount 1 then pure [] s else (copy_in length >>= λ l. λ t. pure l (reset_in t)) s

abbrev all_outb : List (Port × ℕ) → Cmd Sio (Unit {0})
all_outb [] = pure tt
all_outb ((port, v) ∷ rest) = outb port v >> all_outb rest

-- `sio_init`, without the installation of the handler.
unfoldable pub init : Cmd Sio (Unit {0})
init s =
    all_outb
      ((Port.ua5_fcr, 32)
        ∷ (Port.ua5_fcr, 0)
        ∷ (Port.ua5_fcr, 1)
        ∷ (Port.ua5_fcr, 3)
        ∷ (Port.ua5_fcr, 7)
        ∷ (Port.ua4_ier, 0)
        ∷ (Port.ua4_lcr, 128)
        ∷ (Port.ua4_dll, 12)
        ∷ (Port.ua4_dlm, 0)
        ∷ (Port.ua4_lcr, 3)
        ∷ (Port.ua4_mcr, 11)
        ∷ [])
      (record s {
        inbuffer = λ _. 0;
        inlast = 0;
        innext = 0;
        incount = 0;
        outbuffer = λ _. 0;
        outlast = 0;
        outnext = 0;
        outcount = 0;
        sending = false;
        ier = 0;
      })
