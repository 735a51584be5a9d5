-- ===== src/Klog/Lines.antt =====
-- The log as the lines it holds: a bounded history.
use native.Mathlib.Numerals.{add-one}
use vyro_os.Base.{
  ℕ, zero, suc, ◌+◌, ◌-◌, ◌≤◌, ◌<◌, ◌≡◌, refl, ap, ◌∙◌, true, false, List, [], ◌∷◌, ◌++◌, length,
  take, drop, set, get_or, replicate, arith, leb, lt→ltb, if◌then◌else◌, pos, length-set,
  Bool-cases, leb→le, inl, inr,
}
use vyro_os.Base.Text.{c_str, copy_str, c_str-copy_str, length-copy_from}
use vyro_os.Klog.{Log, klog_max, line_size, boot, shift_lines, make_room, klog, klog_get}

-- Rows of at least `line_size` bytes.
abbrev pub Wide : List (List ℕ) → Type 0
Wide [] = Unit
Wide (r ∷ rs) = (line_size ≤ length r) × Wide rs

pub record IsValid (l : Log) : Type 0 where
  pub rows : length l.buffer ≡ klog_max
  pub wide : Wide l.buffer
  pub bounded : l.count ≤ klog_max

-- Each row as a string.
abbrev pub strings : List (List ℕ) → List (List ℕ)
strings [] = []
strings (r ∷ rs) = c_str r ∷ strings rs

-- What the log holds, the oldest line first.
pub lines : Log → List (List ℕ)
lines l = strings (take l.count l.buffer)

length-shift_lines : (rs : List (List ℕ)) → length (shift_lines rs) ≡ length rs
unfolding shift_lines
length-shift_lines [] = refl
length-shift_lines (r ∷ []) = refl
length-shift_lines (r ∷ s ∷ rs) = ap suc (length-shift_lines (s ∷ rs))

Wide-shift_lines : (rs : List (List ℕ)) → Wide rs → Wide (shift_lines rs)
unfolding shift_lines
Wide-shift_lines [] w = tt
Wide-shift_lines (r ∷ []) w = w
Wide-shift_lines (r ∷ s ∷ rs) w = (w.1.0, Wide-shift_lines (s ∷ rs) w.1)

take-shift_lines :
    (n : ℕ) (rs : List (List ℕ))
    → n < length rs
    → take n (shift_lines rs) ≡ drop 1 (take (suc n) rs)
unfolding shift_lines
take-shift_lines n [] lt = absurd (omega arith)
take-shift_lines zero (r ∷ []) lt = refl
take-shift_lines (suc n) (r ∷ []) lt = absurd (omega arith)
take-shift_lines zero (r ∷ s ∷ rs) lt = refl
take-shift_lines (suc n) (r ∷ s ∷ rs) lt =
    ap (λ x. s ∷ x) (take-shift_lines n (s ∷ rs) (omega arith))

Wide-set :
    (rs : List (List ℕ)) (i : ℕ) (r : List ℕ) → Wide rs → line_size ≤ length r → Wide (set rs i r)
Wide-set [] i r w h = tt
Wide-set (q ∷ rs) zero r w h = (h, w.1)
Wide-set (q ∷ rs) (suc i) r w h = (w.0, Wide-set rs i r w.1 h)

Wide-get_or :
    (rs : List (List ℕ)) (i : ℕ) → Wide rs → i < length rs → line_size ≤ length (get_or rs i [])
Wide-get_or [] i w lt = absurd (omega arith)
Wide-get_or (q ∷ rs) zero w lt = w.0
Wide-get_or (q ∷ rs) (suc i) w lt = Wide-get_or rs i w.1 (omega arith)

strings-take-set :
    (rs : List (List ℕ)) (n : ℕ) (r : List ℕ)
    → n < length rs
    → strings (take (suc n) (set rs n r)) ≡ strings (take n rs) ++ (c_str r ∷ [])
strings-take-set [] n r lt = absurd (omega arith)
strings-take-set (q ∷ rs) zero r lt = refl
strings-take-set (q ∷ rs) (suc n) r lt =
    ap (λ x. c_str q ∷ x) (strings-take-set rs n r (omega arith))

strings-drop_one : (rs : List (List ℕ)) → strings (drop 1 rs) ≡ drop 1 (strings rs)
strings-drop_one [] = refl
strings-drop_one (r ∷ rs) = refl

-- The line goes behind what `make_room` left.
klog_after :
    (l : Log) (msg : List ℕ)
    → IsValid (make_room l)
    → (make_room l).count < klog_max
    → (lines (klog l msg) ≡ lines (make_room l) ++ (take 79 (c_str msg) ∷ []))
      × IsValid (klog l msg)
unfolding klog lines copy_str
klog_after l msg v lt =
    let r = make_room l in
    let row = get_or r.buffer r.count [] in
    let wide = Wide-get_or r.buffer r.count v.wide (omega (arith, v.rows)) in
    (
      rw (add-one r.count) (strings-take-set r.buffer r.count _ (omega (arith, v.rows)))
          ∙ ap (λ x. strings (take r.count r.buffer) ++ (x ∷ []))
              (c_str-copy_str row msg line_size (omega arith) wide),
      record {
        rows = length-set r.buffer r.count _ ∙ v.rows;
        wide =
            Wide-set r.buffer r.count _ v.wide
              (omega (arith, wide, length-copy_from row 0 msg line_size));
        bounded = omega (arith, lt);
      },
    )

room_of_full :
    (l : Log)
    → leb klog_max l.count ≡ true
    → make_room l ≡ record { buffer = shift_lines l.buffer; count = klog_max - 1 }
unfolding make_room
room_of_full l h = rw (h, make_room)

room_of_rest : (l : Log) → leb klog_max l.count ≡ false → make_room l ≡ l
unfolding make_room
room_of_rest l h = rw (h, make_room)

make_room_lem :
    (l : Log)
    → IsValid l
    → IsValid (make_room l)
      × ((make_room l).count < klog_max)
      × (lines (make_room l) ≡ (if leb klog_max l.count then drop 1 (lines l) else lines l))
unfolding lines
make_room_lem l v = elim (Bool-cases (leb klog_max l.count)) [
  | inl full ↦
      rw (room_of_full l full, full)
        (
          record {
            rows = length-shift_lines l.buffer ∙ v.rows;
            wide = Wide-shift_lines l.buffer v.wide;
            bounded = omega arith;
          },
          omega arith,
          ap strings (take-shift_lines 127 l.buffer (omega (arith, v.rows)))
              ∙ strings-drop_one (take 128 l.buffer)
              ∙ ap (λ n. drop 1 (strings (take n l.buffer))) {x = 128}
                  (omega (arith, v.bounded, leb→le klog_max l.count full)),
        )
  | inr room ↦ rw (room_of_rest l room, room) (v, ground arith, refl)
]

-- Logging a message to a valid log appends its first 79 bytes as a line, and drops the oldest line
-- exactly where the log holds 128 of them; the log stays valid.
pub klog_lem :
    (l : Log) (msg : List ℕ)
    → IsValid l
    → (lines (klog l msg)
        ≡ (if leb klog_max l.count then drop 1 (lines l) else lines l)
          ++ (take 79 (c_str msg) ∷ []))
      × IsValid (klog l msg)
klog_lem l msg v =
    let (v', lt, e) = make_room_lem l v in
    let (e', v'') = klog_after l msg v' lt in
    (e' ∙ ap (λ x. x ++ (take 79 (c_str msg) ∷ [])) e, v'')

Wide-zeros : (n : ℕ) → Wide (replicate n (replicate line_size 0))
Wide-zeros zero = tt
Wide-zeros (suc n) = (omega arith, Wide-zeros n)

pub boot-IsValid : IsValid boot
unfolding boot
boot-IsValid = record { rows = refl; wide = Wide-zeros klog_max; bounded = omega arith }

-- The last line of the log is what was logged last, cut to 79 bytes.
pub klog_get-klog :
    (l : Log) (msg : List ℕ)
    → IsValid l
    → klog_get (klog l msg) (pos ((klog l msg).count - 1)) ≡ take 79 (c_str msg)
unfolding klog klog_get copy_str
klog_get-klog l msg v =
    let (v', lt, e) = make_room_lem l v in
    let r = make_room l in
    let row = get_or r.buffer r.count [] in
    let wide = Wide-get_or r.buffer r.count v'.wide (omega (arith, v'.rows)) in
    let same : r.count + 1 - 1 ≡ r.count = omega arith in
    rw (same, lt→ltb r.count (r.count + 1) (omega arith))
      (ap c_str (get_or-set r.buffer r.count _ (omega (arith, v'.rows)))
        ∙ c_str-copy_str row msg line_size (omega arith) wide)
  where
    get_or-set :
        (rs : List (List ℕ)) (i : ℕ) (r : List ℕ) → i < length rs → get_or (set rs i r) i [] ≡ r
    get_or-set [] i r lt = absurd (omega arith)
    get_or-set (q ∷ rs) zero r lt = refl
    get_or-set (q ∷ rs) (suc i) r lt = get_or-set rs i r (omega arith)
