-- ===== src/Drivers/Keyboard/Input.antt =====
-- The characters waiting in the buffer, and what a scan code adds to them.
use native.Mathlib.Numerals.{add-one}
use native.Mathlib.Decide.{ℕ_discrete}
use vyro_os.Base.{
  ℕ, ◌+◌, ◌%◌, ◌≤◌, ◌<◌, ◌≡◌, ◌≢◌, ◌⊎◌, inl, inr, refl, ap, ◌∙◌, Bool, true, false, not, xor, ◌||◌,
  List, [], ◌∷◌, ◌++◌, length, arith, ltb, leb, ◌==◌, if◌then◌else◌, length-set, Bool-cases, ltb→lt,
  ne→==, ==_iff,
}
use vyro_os.Base.Ring.{window, window_of_pos, window-set}
use vyro_os.Drivers.Keyboard.{
  Keyboard, kb_buffer_size, key_none, key_escape, key_backspace, boot, buffer_push,
  keyboard_getchar, extended_key, translate, push_nonzero, plain_key, keyboard_handler,
}

pub record IsValid (s : Keyboard) : Type 0 where
  pub size : length s.kb_buffer ≡ kb_buffer_size
  pub read : s.kb_read_pos < kb_buffer_size
  pub count : s.kb_count ≤ kb_buffer_size
  pub write : s.kb_write_pos ≡ (s.kb_read_pos + s.kb_count) % kb_buffer_size

-- The characters waiting, the oldest first.
unfoldable pub pending : Keyboard → List ℕ
pending s = window s.kb_buffer kb_buffer_size s.kb_read_pos s.kb_count

pub boot-IsValid : IsValid boot
unfolding boot
boot-IsValid = record { size = refl; read = omega arith; count = omega arith; write = refl }

-- What a step may do to the characters: nothing, or one more that is not 0 where there is room.
abbrev pub Typed : Keyboard → Keyboard → Type 0
Typed s s' =
    IsValid s'
    × ((pending s' ≡ pending s)
        ⊎ ((c : ℕ) × (c ≢ 0)
            × (s.kb_count < kb_buffer_size)
            × (pending s' ≡ pending s ++ (c ∷ []))))

buffer_push-Typed : (s : Keyboard) (c : ℕ) → IsValid s → c ≢ 0 → Typed s (buffer_push s c)
unfolding buffer_push pending
buffer_push-Typed s c v ne = elim (Bool-cases (ltb s.kb_count kb_buffer_size)) [
  | inr full ↦ rw full (v, inl refl)
  | inl room ↦
      let lt = ltb→lt s.kb_count kb_buffer_size room in
      rw room (
        record {
          size = length-set s.kb_buffer s.kb_write_pos c ∙ v.size;
          read = v.read;
          count = omega (arith, lt);
          write = ap (λ n. (n + 1) % kb_buffer_size) v.write ∙ omega arith;
        },
        inr (
          c,
          ne,
          lt,
          rw (add-one s.kb_count) (
              window-set s.kb_buffer kb_buffer_size c s.kb_count s.kb_read_pos s.kb_write_pos
                (omega (arith, v.size)) v.read lt v.write),
        ),
      )
]

push_nonzero-Typed : (s : Keyboard) (c : ℕ) → IsValid s → Typed s (push_nonzero s c)
unfolding push_nonzero
push_nonzero-Typed s c v = elim (ℕ_discrete c 0) [
  | yes z ↦ rw z (v, inl refl)
  | no nz ↦ rw (ne→== c 0 nz) (buffer_push-Typed s c v nz)
]

-- Only the flags change.
flags-Typed :
    (s : Keyboard) (shift caps extended : Bool)
    → IsValid s
    → Typed s (record s { shift_held = shift; caps_lock = caps; extended_mode = extended })
unfolding pending
flags-Typed s shift caps extended v =
    (record { size = v.size; read = v.read; count = v.count; write = v.write }, inl refl)

if-Typed : (b : Bool) (s x y : Keyboard) → Typed s x → Typed s y → Typed s (if b then x else y)
if-Typed true s x y h k = h
if-Typed false s x y h k = k

extended_key-Typed : (s : Keyboard) (scancode : ℕ) → IsValid s → Typed s (extended_key s scancode)
unfolding extended_key
extended_key-Typed s scancode v =
    if-Typed (scancode == 0x48) s _ _ (buffer_push-Typed s 1 v (omega arith)) (
      if-Typed (scancode == 0x50) s _ _ (buffer_push-Typed s 2 v (omega arith)) (
        if-Typed (scancode == 0x4B) s _ _ (buffer_push-Typed s 3 v (omega arith)) (
          if-Typed (scancode == 0x4D) s _ _ (buffer_push-Typed s 4 v (omega arith)) (v, inl refl))))

plain_key-Typed : (s : Keyboard) (scancode : ℕ) → IsValid s → Typed s (plain_key s scancode)
unfolding plain_key
plain_key-Typed s scancode v =
    if-Typed ((scancode == 0x2A) || (scancode == 0x36)) s _ _
      (flags-Typed s true s.caps_lock s.extended_mode v)
      (if-Typed (scancode == 0x3A) s _ _
        (flags-Typed s s.shift_held (not s.caps_lock) s.extended_mode v)
        (if-Typed (scancode == 0x01) s _ _ (buffer_push-Typed s key_escape v (omega arith)) (
          if-Typed (scancode == 0x0E) s _ _ (buffer_push-Typed s key_backspace v (omega arith))
            (push_nonzero-Typed s (translate (xor s.shift_held s.caps_lock) scancode) v))))

-- Whatever byte is read, the handler leaves the characters that wait as they are or, where the
-- buffer has room, adds one character behind them that is not 0; the buffer stays valid.
pub keyboard_handler_lem :
    (s : Keyboard) (scancode : ℕ) → IsValid s → Typed s (keyboard_handler s scancode)
unfolding keyboard_handler pending
keyboard_handler_lem s scancode v =
    if-Typed (scancode == 0xE0) s _ _ (flags-Typed s s.shift_held s.caps_lock true v) (
      if-Typed (leb 0x80 scancode) s _ _ (flags-Typed s _ s.caps_lock false v) (
        if-Typed s.extended_mode s _ _
          (extended_key-Typed (record s { extended_mode = false }) scancode
            (flags-Typed s s.shift_held s.caps_lock false v).0)
          (plain_key-Typed s scancode v)))

-- `keyboard_getchar` gives 0 and changes nothing exactly where no character waits; otherwise it
-- gives the one that has waited longest and takes it away. The buffer stays valid.
pub keyboard_getchar_lem :
    (s : Keyboard)
    → IsValid s
    → let (s', c) = keyboard_getchar s in
      (((pending s ≡ []) × (c ≡ key_none) × (s' ≡ s)) ⊎ (pending s ≡ c ∷ pending s')) × IsValid s'
unfolding keyboard_getchar pending
keyboard_getchar_lem s v = elim (ℕ_discrete s.kb_count 0) [
  | yes z ↦
      let empty : (s.kb_count == 0) ≡ true = (==_iff s.kb_count 0).1 z in
      rw empty (inl (ap (window s.kb_buffer kb_buffer_size s.kb_read_pos) z, refl, refl), v)
  | no nz ↦ rw (ne→== s.kb_count 0 nz) (
    inr (window_of_pos s.kb_buffer kb_buffer_size s.kb_read_pos s.kb_count (omega arith)),
    record {
      size = v.size;
      read = omega arith;
      count = omega (arith, v.count);
      write = v.write ∙ omega arith;
    },
  )
]
