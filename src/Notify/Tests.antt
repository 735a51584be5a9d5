-- ===== src/Notify/Tests.antt =====
-- Posting into the empty table and a full one, and a notification that expires.
use vyro_os.Base.{ℕ, suc, ◌≡◌, refl, List, [], ◌∷◌, ◌⊎◌}
use vyro_os.Base.Every.{Every}
use vyro_os.Base.Slots.{first, count_of}
use vyro_os.Notify.{
  Note, max_notifications, blank_note, boot_notes, expire, notify_post, notify_tick, notify_active,
}
use vyro_os.Notify.Post.{HasArrays, IsNote, IsPosted, notify_post_lem}

abbrev hi : List ℕ
hi = 104 ∷ 105 ∷ []

boot_notes-HasArrays : Every HasArrays boot_notes.notes
boot_notes-HasArrays =
    let blank : HasArrays blank_note = (refl, refl) in
    (blank, (blank, (blank, (blank, (blank, (blank, (blank, (blank, tt))))))))

notify_post_lem_example :
    let st' = notify_post boot_notes hi hi 7 in
    ((notify_active boot_notes ≡ max_notifications) × (st' ≡ boot_notes))
    ⊎ ((i : ℕ) × (m : Note) × IsNote hi hi 7 m
        × IsPosted boot_notes i m st'
        × (notify_active st' ≡ suc (notify_active boot_notes)))
notify_post_lem_example = notify_post_lem boot_notes hi hi 7 refl boot_notes-HasArrays

-- A notification posted at 7 is shown at 407 and not at 408.
shown : notify_active (notify_tick (notify_post boot_notes hi hi 7) 407) ≡ 1
unfolding notify_active notify_tick notify_post expire first count_of
shown = refl

expired : notify_active (notify_tick (notify_post boot_notes hi hi 7) 408) ≡ 0
unfolding notify_active notify_tick notify_post expire first count_of
expired = refl
