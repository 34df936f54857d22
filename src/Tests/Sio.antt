-- ===== src/Tests/Sio.antt =====
-- The serial driver: a line of two characters, and an input buffer near its end.
use os_team.Base.{◌+◌, ◌%◌, ◌≡◌, refl, arith, true, [], ◌∷◌, Returns, ◌>>=◌}
use os_team.Sio.{Sio, Port, write, read}
use os_team.Sio.Output.{Queued}
use os_team.Sio.Line.{Line}
use os_team.Sio.Write.{Accepts, write-Accepts}
use os_team.Sio.Transmit.{Rested, transmit_times, transmit_times-Rested}
use os_team.Sio.Input.{Held}
use os_team.Sio.Reading.{store_all, store_all-read}

abbrev pub sio0 : Sio
sio0 = record {
  inbuffer = λ i. (65 + i) % 256;
  inlast = 0;
  innext = 0;
  incount = 0;
  outbuffer = λ i. (97 + i) % 256;
  outlast = 1;
  outnext = 1023;
  outcount = 2;
  sending = true;
  ier = 2;
  written = (Port.ua4_txd, 90) ∷ (Port.ua4_ier, 2) ∷ [];
}

-- Two characters wait, the second one at the start of the buffer.
queued0 : Queued sio0 (96 ∷ 97 ∷ [])
queued0 = record {
  next = omega arith;
  last = refl;
  count = refl;
  few = omega arith;
  cells = (refl, (refl, tt));
}

line0 : Line sio0 (90 ∷ 96 ∷ 97 ∷ [])
line0 = record { waiting = 96 ∷ 97 ∷ []; queued = queued0; all = refl; idle = λ off. cc }

write-Accepts_example :
    Returns (Accepts (λ a. a) 66 3 (90 ∷ 96 ∷ 97 ∷ [])) (write (λ a. a) 66 3 sio0)
write-Accepts_example =
    write-Accepts (λ a. a) 66 3 sio0 (90 ∷ 96 ∷ 97 ∷ []) line0 (omega arith) (λ off. omega arith)

transmit_times-Rested_example :
    Returns (λ _ s'. Rested s' (90 ∷ 96 ∷ 97 ∷ [])) (transmit_times 3 sio0)
transmit_times-Rested_example = transmit_times-Rested sio0 (90 ∷ 96 ∷ 97 ∷ []) line0

-- One character is left, in the last cell of the buffer.
abbrev sio1 : Sio
sio1 = record sio0 { inlast = 1023; innext = 1022; incount = 1 }

held0 : Held sio0 []
held0 = record { last = refl; count = refl; inside = omega arith; cells = tt }

store_all-read_example :
    Returns
      (λ got s'. (got ≡ 104 ∷ 105 ∷ []) × Held s' [])
      ((store_all (104 ∷ 105 ∷ []) >>= λ _. read 8) sio0)
store_all-read_example = store_all-read (104 ∷ 105 ∷ []) 8 sio0 held0 (omega arith) (omega arith)

-- The buffer is empty, with room for two characters up to its end.
abbrev sio2 : Sio
sio2 = record sio0 { inlast = 1022; innext = 1022 }
