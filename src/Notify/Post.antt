-- ===== src/Notify/Post.antt =====
-- What posting and the passing of time do to the notifications.
use vyro_os.Base.{
  ◌⊎◌, ◌∙◌, get_elem?, take, some, ℕ, zero, suc, ◌+◌, ◌-◌, ◌%◌, ◌^◌, ◌≡◌, refl, ap, Bool, true,
  false, ◌&&◌, inl, inr, List, [], ◌∷◌, length, set, ltb, if◌then◌else◌, if-holds, arith,
}
use vyro_os.Base.Every.{Every, Every-get}
use vyro_os.Base.Text.{c_str, c_str-copy_str}
use vyro_os.Base.Slots.{first_lem, first_before, count_of, count_of-set, NoneOf}
use vyro_os.Notify.{
  Note, Notes, max_notifications, lifetime_ticks, is_dead, is_alive, filled_note, notify_post,
  expire, notify_tick, notify_active,
}

count_all : (ns : List Note) → NoneOf is_dead ns → count_of is_alive ns ≡ length ns
unfolding count_of
count_all [] h = refl
count_all (n ∷ ns) h =
    let on : n.alive ≡ true = ground (arith, h.0) in rw on (omega (arith, count_all ns h.1))

-- The arrays of a notification have their sizes.
abbrev pub HasArrays : Note → Type 0
HasArrays n = (length n.title ≡ 48) × (length n.body ≡ 80)

-- A notification shown since `now`, its title cut to 47 bytes and its body to 79.
abbrev pub IsNote : List ℕ → List ℕ → ℕ → Note → Type 0
IsNote title body now m =
    (c_str m.title ≡ take 47 (c_str title))
    × (c_str m.body ≡ take 79 (c_str body))
    × (m.shown_at_tick ≡ now)
    × (m.alive ≡ true)

filled_note-IsNote :
    (n : Note) (title body : List ℕ) (now : ℕ)
    → HasArrays n
    → IsNote title body now (filled_note n title body now)
filled_note-IsNote n title body now (t, b) = (
  c_str-copy_str n.title title 48 (omega arith) (omega (arith, t)),
  c_str-copy_str n.body body 80 (omega arith) (omega (arith, b)),
  refl,
  refl,
)

-- `m` stands in the place `i`, the first that was free, and in the place of the history that comes
-- next; nothing else changes.
abbrev pub IsPosted : Notes → ℕ → Note → Notes → Type 0
IsPosted st i m st' =
    ((n : Note) × (get_elem? st.notes i ≡ some n) × (n.alive ≡ false))
    × NoneOf is_dead (take i st.notes)
    × (st'.notes ≡ set st.notes i m)
    × (st'.history ≡ set st.history (st.hist_count % 32) m)
    × (st'.hist_count ≡ suc st.hist_count)

-- With the table of 8 entries, their arrays of 48 and 80 bytes: when all are shown, posting changes nothing, and the history does not
-- get the notification either. Otherwise the notification, its title cut to 47 bytes and its body
-- to 79, stands in the first free place of the table and in the next of the 32 places of the history,
-- all else stays, and one notification more is shown.
pub notify_post_lem :
    (st : Notes) (title body : List ℕ) (now : ℕ)
    → length st.notes ≡ max_notifications
    → Every HasArrays st.notes
    → let st' = notify_post st title body now in
      ((notify_active st ≡ max_notifications) × (st' ≡ st))
      ⊎ ((i : ℕ) × (m : Note) × IsNote title body now m
          × IsPosted st i m st'
          × (notify_active st' ≡ suc (notify_active st)))
unfolding notify_post notify_active
notify_post_lem st title body now size arrays = elim (first_lem is_dead st.notes) [
  | inl (full, alive) ↦ rw full (inl (count_all st.notes alive ∙ size, refl))
  | inr (i, n, (at, dead, found)) ↦
      let m = filled_note n title body now in
      let off : n.alive ≡ false = ground arith in
      let none_before : (if n.alive then 1 else 0) ≡ zero =
        ap (λ (b : Bool). if b then suc zero else zero) off in
      let change = count_of-set is_alive st.notes i n m at in
      rw found (
        inr (
          i,
          m,
          filled_note-IsNote n title body now (Every-get HasArrays st.notes i arrays at),
          ((n, at, off), first_before is_dead st.notes i n found, refl, refl, refl),
          omega (arith, change, none_before),
        ))
]

-- Not shown, or not more than 400 ticks old.
abbrev pub IsYoung : ℕ → Note → Type 0
IsYoung now n = (n.alive && ltb lifetime_ticks ((now + 2 ^ 64 - n.shown_at_tick) % 2 ^ 64)) ≡ false

expire-Every : (now : ℕ) (ns : List Note) → Every (IsYoung now) (expire now ns)
unfolding expire
expire-Every now [] = tt
expire-Every now (n ∷ ns) = (
  if-holds (IsYoung now) (n.alive && ltb lifetime_ticks ((now + 2 ^ 64 - n.shown_at_tick) % 2 ^ 64))
      (λ old. refl) (λ young. young),
  expire-Every now ns,
)

-- After `notify_tick`, no notification that is shown is more than 400 ticks old.
pub notify_tick_lem : (st : Notes) (now : ℕ) → Every (IsYoung now) (notify_tick st now).notes
unfolding notify_tick
notify_tick_lem st now = expire-Every now st.notes
