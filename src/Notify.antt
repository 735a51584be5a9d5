-- ===== src/Notify.antt =====
-- kernel/notify.c: the notifications on the screen and their history.
use vyro_os.Base.{
  ℕ, suc, ◌+◌, ◌-◌, ◌*◌, ◌%◌, ◌^◌, Bool, true, false, ◌&&◌, not, Option, none, some, List, [], ◌∷◌,
  set, replicate, ltb, if◌then◌else◌,
}
use vyro_os.Base.Text.{copy_str}
use vyro_os.Base.Slots.{first, count_of}
pub mod Post
pub mod Tests

abbrev pub max_notifications : ℕ
max_notifications = 8

abbrev pub lifetime_ticks : ℕ
lifetime_ticks = 400

-- `notification_t`
pub record Note : Type 0 where
  pub title : List ℕ
  pub body : List ℕ
  pub shown_at_tick : ℕ
  pub alive : Bool

-- The static variables of the file.
pub record Notes : Type 0 where
  pub notes : List Note
  pub history : List Note
  pub hist_count : ℕ

abbrev pub blank_note : Note
blank_note = record {
  title = replicate 48 0;
  body = replicate 80 0;
  shown_at_tick = 0;
  alive = false;
}

-- The variables at the start: zeros.
abbrev pub boot_notes : Notes
boot_notes = record {
  notes = replicate max_notifications blank_note;
  history = replicate (max_notifications * 4) blank_note;
  hist_count = 0;
}

abbrev pub is_dead : Note → Bool
is_dead n = not n.alive

abbrev pub is_alive : Note → Bool
is_alive n = n.alive

abbrev pub filled_note : Note → List ℕ → List ℕ → ℕ → Note
filled_note n title body now = record {
  title = copy_str n.title title 48;
  body = copy_str n.body body 80;
  shown_at_tick = now;
  alive = true;
}

-- What is done with the entry found, if any; `now` is `timer_ticks()`. The count of the history is
-- a C `int`; it stays below 2 ^ 31.
abbrev pub post_at : Notes → List ℕ → List ℕ → ℕ → Option (ℕ × Note) → Notes
post_at st title body now none = st
post_at st title body now (some (i, n)) = record {
  notes = set st.notes i (filled_note n title body now);
  history = set st.history (st.hist_count % (max_notifications * 4)) (filled_note n title body now);
  hist_count = suc st.hist_count;
}

unfoldable pub notify_post : Notes → List ℕ → List ℕ → ℕ → Notes
unfolding first
notify_post st title body now = post_at st title body now (first is_dead st.notes)

-- The loop of `notify_tick`; the difference wraps at 64 bits.
pub expire : ℕ → List Note → List Note
expire now [] = []
expire now (n ∷ ns) =
    (if n.alive && ltb lifetime_ticks ((now + 2 ^ 64 - n.shown_at_tick) % 2 ^ 64)
      then record n { alive = false }
      else n)
    ∷ expire now ns

unfoldable pub notify_tick : Notes → ℕ → Notes
unfolding expire
notify_tick st now = record st { notes = expire now st.notes }

-- The count that `notify_active` returns.
unfoldable pub notify_active : Notes → ℕ
unfolding count_of
notify_active st = count_of is_alive st.notes

-- The count that `notify_history` gives.
pub notify_history : Notes → ℕ
notify_history st =
    if ltb (max_notifications * 4) st.hist_count then max_notifications * 4 else st.hist_count
