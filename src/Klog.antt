-- ===== src/Klog.antt =====
-- kernel/klog.c: the kernel log, 128 lines of 80 bytes of which the oldest is dropped when it is full.
pub mod Lines
pub mod Tests
use vyro_os.Base.{
  ℕ, suc, ◌+◌, ◌-◌, List, [], ◌∷◌, get_or, set, replicate, ltb, leb, if◌then◌else◌, ℤ, pos, negsuc,
}
use vyro_os.Base.Text.{copy_str, c_str}

abbrev pub klog_max : ℕ
klog_max = 128

-- the bytes of a line
abbrev pub line_size : ℕ
line_size = 80

-- `buffer` and `count`
pub record Log : Type 0 where
  pub buffer : List (List ℕ)
  pub count : ℕ

pub boot : Log
boot = record { buffer = replicate klog_max (replicate line_size 0); count = 0 }

-- `for (i = 1; i < KLOG_MAX; i++) buffer[i-1] = buffer[i];`: the last line stays where it is too.
pub shift_lines : List (List ℕ) → List (List ℕ)
shift_lines [] = []
shift_lines (r ∷ []) = r ∷ []
shift_lines (r ∷ s ∷ rs) = s ∷ shift_lines (s ∷ rs)

-- The part before the copy.
pub make_room : Log → Log
unfolding shift_lines
make_room l =
    if leb klog_max l.count
    then record { buffer = shift_lines l.buffer; count = klog_max - 1 }
    else l

pub klog : Log → List ℕ → Log
unfolding make_room
klog l msg =
    let r = make_room l in
    record {
      buffer = set r.buffer r.count (copy_str (get_or r.buffer r.count []) msg line_size);
      count = r.count + 1;
    }

pub klog_count : Log → ℕ
klog_count l = l.count

-- `klog_get`, read as a C string
pub klog_get : Log → ℤ → List ℕ
klog_get l (negsuc n) = []
klog_get l (pos i) = if ltb i l.count then c_str (get_or l.buffer i []) else []
