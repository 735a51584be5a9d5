-- ===== src/Drivers/Keyboard.antt =====
-- drivers/keyboard.c: the interrupt handler that turns scan codes into characters, and the buffer
-- that they wait in. The byte read from the port is an argument of the handler.
pub mod Input
pub mod Tests
use vyro_os.Base.{
  ℕ, ◌+◌, ◌-◌, ◌%◌, Bool, true, false, not, xor, ◌&&◌, ◌||◌, List, [], ◌∷◌, get_or, set, replicate,
  length, ltb, leb, ◌==◌, if◌then◌else◌,
}

abbrev pub kb_buffer_size : ℕ
kb_buffer_size = 256

abbrev pub key_none : ℕ
key_none = 0

abbrev pub key_escape : ℕ
key_escape = 0x1B

abbrev pub key_backspace : ℕ
key_backspace = 0x08

pub scancode_ascii_lower : List ℕ
scancode_ascii_lower =
    0 ∷ 0 ∷ 49 ∷ 50 ∷ 51 ∷ 52 ∷ 53 ∷ 54 ∷ 55 ∷ 56 ∷ 57 ∷ 48 ∷ 45 ∷ 61 ∷ 0 ∷ 9 ∷ 113 ∷ 119 ∷ 101
    ∷ 114 ∷ 116 ∷ 121 ∷ 117 ∷ 105 ∷ 111 ∷ 112 ∷ 91 ∷ 93 ∷ 10 ∷ 0 ∷ 97 ∷ 115 ∷ 100 ∷ 102 ∷ 103 ∷ 104
    ∷ 106 ∷ 107 ∷ 108 ∷ 59 ∷ 39 ∷ 96 ∷ 0 ∷ 92 ∷ 122 ∷ 120 ∷ 99 ∷ 118 ∷ 98 ∷ 110 ∷ 109 ∷ 44 ∷ 46 ∷ 47
    ∷ 0 ∷ 42 ∷ 0 ∷ 32 ∷ 0 ∷ 0 ∷ 0 ∷ 0 ∷ 0 ∷ 0 ∷ 0 ∷ 0 ∷ 0 ∷ 0 ∷ 0 ∷ 0 ∷ 0 ∷ 55 ∷ 56 ∷ 57 ∷ 45 ∷ 52
    ∷ 53 ∷ 54 ∷ 43 ∷ 49 ∷ 50 ∷ 51 ∷ 48 ∷ 46 ∷ 0 ∷ 0 ∷ 0 ∷ 0 ∷ []

pub scancode_ascii_upper : List ℕ
scancode_ascii_upper =
    0 ∷ 0 ∷ 33 ∷ 64 ∷ 35 ∷ 36 ∷ 37 ∷ 94 ∷ 38 ∷ 42 ∷ 40 ∷ 41 ∷ 95 ∷ 43 ∷ 0 ∷ 9 ∷ 81 ∷ 87 ∷ 69 ∷ 82
    ∷ 84 ∷ 89 ∷ 85 ∷ 73 ∷ 79 ∷ 80 ∷ 123 ∷ 125 ∷ 10 ∷ 0 ∷ 65 ∷ 83 ∷ 68 ∷ 70 ∷ 71 ∷ 72 ∷ 74 ∷ 75 ∷ 76
    ∷ 58 ∷ 34 ∷ 126 ∷ 0 ∷ 124 ∷ 90 ∷ 88 ∷ 67 ∷ 86 ∷ 66 ∷ 78 ∷ 77 ∷ 60 ∷ 62 ∷ 63 ∷ 0 ∷ 42 ∷ 0 ∷ 32
    ∷ 0 ∷ 0 ∷ 0 ∷ 0 ∷ 0 ∷ 0 ∷ []

-- The static variables of the file.
pub record Keyboard : Type 0 where
  pub kb_buffer : List ℕ
  pub kb_read_pos : ℕ
  pub kb_write_pos : ℕ
  pub kb_count : ℕ
  pub shift_held : Bool
  pub caps_lock : Bool
  pub extended_mode : Bool

pub boot : Keyboard
boot = record {
  kb_buffer = replicate kb_buffer_size 0;
  kb_read_pos = 0;
  kb_write_pos = 0;
  kb_count = 0;
  shift_held = false;
  caps_lock = false;
  extended_mode = false;
}

pub buffer_push : Keyboard → ℕ → Keyboard
buffer_push s c =
    if ltb s.kb_count kb_buffer_size
    then record s {
      kb_buffer = set s.kb_buffer s.kb_write_pos c;
      kb_write_pos = (s.kb_write_pos + 1) % kb_buffer_size;
      kb_count = s.kb_count + 1;
    }
    else s

pub keyboard_getchar : Keyboard → Keyboard × ℕ
keyboard_getchar s = if s.kb_count == 0 then (s, key_none) else (
  record s { kb_read_pos = (s.kb_read_pos + 1) % kb_buffer_size; kb_count = s.kb_count - 1 },
  get_or s.kb_buffer s.kb_read_pos 0,
)

pub keyboard_has_input : Keyboard → Bool
keyboard_has_input s = ltb 0 s.kb_count

-- The switch on the keys behind a prefix 0xE0.
pub extended_key : Keyboard → ℕ → Keyboard
unfolding buffer_push
extended_key s scancode =
    if scancode == 0x48
    then buffer_push s 0x01
    else if scancode == 0x50
    then buffer_push s 0x02
    else if scancode == 0x4B
    then buffer_push s 0x03
    else if scancode == 0x4D
    then buffer_push s 0x04
    else s

-- The character of a scan code; 0 where it has none.
pub translate : Bool → ℕ → ℕ
unfolding scancode_ascii_lower scancode_ascii_upper
translate use_upper scancode =
    if ltb scancode (length scancode_ascii_lower)
    then (let c =
          (if use_upper && ltb scancode (length scancode_ascii_upper)
            then get_or scancode_ascii_upper scancode 0
            else 0) in
        if c == 0 then get_or scancode_ascii_lower scancode 0 else c)
    else 0

pub push_nonzero : Keyboard → ℕ → Keyboard
unfolding buffer_push
push_nonzero s c = if c == 0 then s else buffer_push s c

-- A press of a key without prefix.
pub plain_key : Keyboard → ℕ → Keyboard
unfolding buffer_push translate push_nonzero
plain_key s scancode =
    if (scancode == 0x2A) || (scancode == 0x36)
    then record s { shift_held = true }
    else if scancode == 0x3A
    then record s { caps_lock = not s.caps_lock }
    else if scancode == 0x01
    then buffer_push s key_escape
    else if scancode == 0x0E
    then buffer_push s key_backspace
    else push_nonzero s (translate (xor s.shift_held s.caps_lock) scancode)

-- `keyboard_handler` on the byte read, which is below 256
pub keyboard_handler : Keyboard → ℕ → Keyboard
unfolding extended_key plain_key
keyboard_handler s scancode =
    if scancode == 0xE0
    then record s { extended_mode = true }
    else if leb 0x80 scancode
    then record s {
      shift_held =
          (if (scancode - 0x80 == 0x2A) || (scancode - 0x80 == 0x36) then false else s.shift_held);
      extended_mode = false;
    }
    else if s.extended_mode
    then extended_key (record s { extended_mode = false }) scancode
    else plain_key s scancode
