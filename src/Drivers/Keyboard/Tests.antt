-- ===== src/Drivers/Keyboard/Tests.antt =====
-- The theorems of the keyboard on an empty buffer, and keys pressed one after the other.
use vyro_os.Base.{ℕ, ◌<◌, ◌≡◌, ◌≢◌, ◌⊎◌, refl, [], ◌∷◌, ◌++◌}
use vyro_os.Drivers.Keyboard.{Keyboard, kb_buffer_size, boot, keyboard_handler}
use vyro_os.Drivers.Keyboard.Input.{IsValid, pending, boot-IsValid, keyboard_handler_lem}

-- shift down, `a`, shift up, `a`, and the arrow behind its prefix
abbrev typed : Keyboard
typed =
    keyboard_handler
      (keyboard_handler
        (keyboard_handler
          (keyboard_handler (keyboard_handler (keyboard_handler boot 0x2A) 0x1E) 0xAA) 0x1E)
        0xE0)
      0x48

typed-pending : pending typed ≡ 65 ∷ 97 ∷ 1 ∷ []
unfolding keyboard_handler boot pending mathlib.Core.Bool.xor
typed-pending = refl

keyboard_handler_lem_example :
    IsValid (keyboard_handler boot 0x1E)
    × ((pending (keyboard_handler boot 0x1E) ≡ pending boot)
        ⊎ ((c : ℕ) × (c ≢ 0)
            × (boot.kb_count < kb_buffer_size)
            × (pending (keyboard_handler boot 0x1E) ≡ pending boot ++ (c ∷ []))))
keyboard_handler_lem_example = keyboard_handler_lem boot 0x1E boot-IsValid
