-- ===== src/Console/Keyboard.antt =====
-- The keyboard of kernel/cio.c: scan codes, and the circular buffer of the characters typed.
use os_team.Base.{
  ℕ, zero, suc, ◌+◌, ◌-◌, ◌%◌, Bool, true, false, not, ◌&&◌, ◌||◌, ltb, ◌==◌, if◌then◌else◌, Option,
  none, some, List, [], ◌∷◌, get_elem?, replicate, Cmd, pure, get, put, halt, out_of_fuel, ◌>>=◌,
  ◌>>◌,
}
use os_team.Base.Int.{ℤ, pos, negsuc}
use os_team.Base.Chain.{update}
use os_team.Base.Circular.{wrap_at}
use os_team.Console.{
  Cio, putchar, extend, clearscreen, setcursor, puts, screen_x_size, screen_y_size,
}

abbrev pub c_bufsize : ℕ
c_bufsize = 200

abbrev undefined_code : ℕ
undefined_code = 255

-- The two rows of `scan_code`, which end in undefined codes.
abbrev pub unshifted : List ℕ
unshifted =
    255
    ∷ 27
    ∷ 49
    ∷ 50
    ∷ 51
    ∷ 52
    ∷ 53
    ∷ 54
    ∷ 55
    ∷ 56
    ∷ 57
    ∷ 48
    ∷ 45
    ∷ 61
    ∷ 8
    ∷ 9
    ∷ 113
    ∷ 119
    ∷ 101
    ∷ 114
    ∷ 116
    ∷ 121
    ∷ 117
    ∷ 105
    ∷ 111
    ∷ 112
    ∷ 91
    ∷ 93
    ∷ 10
    ∷ 255
    ∷ 97
    ∷ 115
    ∷ 100
    ∷ 102
    ∷ 103
    ∷ 104
    ∷ 106
    ∷ 107
    ∷ 108
    ∷ 59
    ∷ 39
    ∷ 96
    ∷ 255
    ∷ 92
    ∷ 122
    ∷ 120
    ∷ 99
    ∷ 118
    ∷ 98
    ∷ 110
    ∷ 109
    ∷ 44
    ∷ 46
    ∷ 47
    ∷ 255
    ∷ 42
    ∷ 255
    ∷ 32
    ∷ 255
    ∷ 255
    ∷ 255
    ∷ 255
    ∷ 255
    ∷ 255
    ∷ 255
    ∷ 255
    ∷ 255
    ∷ 255
    ∷ 255
    ∷ 255
    ∷ 255
    ∷ 55
    ∷ 56
    ∷ 57
    ∷ 45
    ∷ 52
    ∷ 53
    ∷ 54
    ∷ 43
    ∷ 49
    ∷ 50
    ∷ 51
    ∷ 48
    ∷ 46
    ∷ replicate 44 undefined_code

abbrev pub shifted : List ℕ
shifted =
    255
    ∷ 27
    ∷ 33
    ∷ 64
    ∷ 35
    ∷ 36
    ∷ 37
    ∷ 94
    ∷ 38
    ∷ 42
    ∷ 40
    ∷ 41
    ∷ 95
    ∷ 43
    ∷ 8
    ∷ 9
    ∷ 81
    ∷ 87
    ∷ 69
    ∷ 82
    ∷ 84
    ∷ 89
    ∷ 85
    ∷ 73
    ∷ 79
    ∷ 80
    ∷ 123
    ∷ 125
    ∷ 10
    ∷ 255
    ∷ 65
    ∷ 83
    ∷ 68
    ∷ 70
    ∷ 71
    ∷ 72
    ∷ 74
    ∷ 75
    ∷ 76
    ∷ 58
    ∷ 34
    ∷ 126
    ∷ 255
    ∷ 124
    ∷ 90
    ∷ 88
    ∷ 67
    ∷ 86
    ∷ 66
    ∷ 78
    ∷ 77
    ∷ 60
    ∷ 62
    ∷ 63
    ∷ 255
    ∷ 42
    ∷ 255
    ∷ 32
    ∷ 255
    ∷ 255
    ∷ 255
    ∷ 255
    ∷ 255
    ∷ 255
    ∷ 255
    ∷ 255
    ∷ 255
    ∷ 255
    ∷ 255
    ∷ 255
    ∷ 255
    ∷ 55
    ∷ 56
    ∷ 57
    ∷ 45
    ∷ 52
    ∷ 53
    ∷ 54
    ∷ 43
    ∷ 49
    ∷ 50
    ∷ 51
    ∷ 48
    ∷ 46
    ∷ replicate 44 undefined_code

abbrev pub key : (shift : Bool) (code : ℕ) → ℕ
key shift code = elim (get_elem? (if shift then shifted else unshifted) code) [
  | none ↦ undefined_code
  | some c ↦ c
]

abbrev eq_int : ℤ → ℤ → Bool
eq_int (pos a) (pos b) = a == b
eq_int (negsuc a) (negsuc b) = a == b
eq_int _ _ = false

-- `code != '\377'`: a `char` is signed, and the constant is -1.
abbrev is_defined : ℕ → Bool
is_defined code = not (eq_int (pos code) (negsuc 0))

-- `increment`
abbrev pub increment : ℕ → ℕ
increment i = wrap_at c_bufsize (i + 1)

-- The character goes into the buffer if there is room.
unfoldable pub store_char : (c : ℕ) → Cio → Cio
store_char c s = if increment s.next_space == s.next_char then s else record s {
  input_buffer = update s.input_buffer s.next_space c;
  next_space = increment s.next_space;
}

-- `code & ctrl_mask`
abbrev pub masked : (ctrl : Bool) (code : ℕ) → ℕ
masked ctrl code = if ctrl then code % 32 else code

-- The default case of `input_scan_code`.
unfoldable pub press : (code : ℕ) → Cmd Cio (Option ℕ)
press code s =
    if ltb code 128 && is_defined (key s.shift code)
    then pure (some (masked s.ctrl (key s.shift code)))
        (store_char (masked s.ctrl (key s.shift code)) s)
    else pure none s

-- `input_scan_code`; `none` is -1.
unfoldable pub input_scan_code : (scan : ℕ) → Cmd Cio (Option ℕ)
input_scan_code scan s =
    let code = scan % 256 in
    if code == 42 || (code == 54)
    then pure none (record s { shift = true })
    else if code == 170 || (code == 182)
    then pure none (record s { shift = false })
    else if code == 29
    then pure none (record s { ctrl = true })
    else if code == 157
    then pure none (record s { ctrl = false })
    else press code s

-- `keyboard_isr`, with no notification function.
unfoldable pub keyboard_isr : (scan : ℕ) → Cmd Cio (Unit {0})
keyboard_isr scan = input_scan_code scan >>= λ _. pure tt

abbrev pub eot : ℕ
eot = 4

-- The end of `cio_getchar`, with a character in the buffer.
unfoldable pub take_char : Cmd Cio ℕ
take_char = do
  s ← get
  let c = s.input_buffer s.next_char % 256
  put (record s { next_char = increment s.next_char })
  if c == eot then pure c else (putchar (extend c) >> pure c)

-- `cio_getchar`, with the scan codes that the keyboard delivers; those left are part of the result.
-- The wait for a key that never comes is the end of the fuel.
unfoldable pub getchar : List ℕ → Cmd Cio (ℕ × List ℕ)
getchar [] = do
  s ← get
  if s.next_char == s.next_space then halt out_of_fuel else (take_char >>= λ c. pure (c, []))
getchar (k ∷ ks) = do
  s ← get
  if s.next_char == s.next_space
      then (input_scan_code k >>= λ _. getchar ks)
      else (take_char >>= λ c. pure (c, k ∷ ks))

-- `cio_gets`, with the room for characters left: the characters in front of the NUL.
unfoldable pub gets : (room : ℕ) → List ℕ → Cmd Cio (List ℕ × List ℕ)
gets zero keys = pure ([], keys)
gets (suc room) keys = do
  (ch, keys1) ← getchar keys
  if ch == eot
      then pure ([], keys1)
      else if ch == 10
      then pure (ch ∷ [], keys1)
      else (gets room keys1 >>= λ (chs, keys2). pure (ch ∷ chs, keys2))

-- `cio_input_queue`
unfoldable pub input_queue : Cmd Cio ℕ
input_queue s =
    pure
      (if ltb s.next_space s.next_char
        then s.next_space + c_bufsize - s.next_char
        else s.next_space - s.next_char)
      s

-- "Console I/O is active\n"
abbrev greeting : List ℕ
greeting =
    67 ∷ 111 ∷ 110 ∷ 115 ∷ 111 ∷ 108 ∷ 101 ∷ 32 ∷ 73 ∷ 47 ∷ 79 ∷ 32 ∷ 105 ∷ 115 ∷ 32 ∷ 97 ∷ 99 ∷ 116
    ∷ 105 ∷ 118 ∷ 101 ∷ 10 ∷ []

-- `cio_init`, without the installation of the handler.
unfoldable pub init : Cmd Cio (Unit {0})
init = do
  s ← get
  put (
      clearscreen (
        setcursor (record s {
          min_x = 0;
          min_y = 0;
          max_x = screen_x_size - 1;
          max_y = screen_y_size - 1;
          scroll_min_x = 0;
          scroll_min_y = 0;
          scroll_max_x = screen_x_size - 1;
          scroll_max_y = screen_y_size - 1;
          curr_x = 0;
          curr_y = 0;
        })))
  puts greeting
