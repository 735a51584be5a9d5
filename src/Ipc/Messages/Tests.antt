-- ===== src/Ipc/Messages/Tests.antt =====
-- The theorems of the message queue on the queue that the kernel starts with.
use vyro_os.Base.{
  ℕ, zero, suc, ◌+◌, ◌≡◌, ◌⊎◌, refl, Bool, true, false, Option, none, some, List, [], ◌∷◌,
  get_elem?, length, replicate, arith, ℤ, pos, minus_one,
}
use vyro_os.Base.Text.{c_str}
use vyro_os.Ipc.Messages.{Message, boot, mq_send, mq_recv}
use vyro_os.Ipc.Messages.Order.{IsQueue}

abbrev hello : List ℕ
hello = 104 ∷ 105 ∷ []

abbrev later : List ℕ
later = 111 ∷ 107 ∷ []

-- A message sent after a receive takes the lower slot and overtakes the one that waits.
overtaken :
    (mq_recv
      (mq_send
        (mq_recv (mq_send (mq_send boot (pos 1) hello).0 (pos 2) hello).0).0
        (pos 3)
        later).0).1
    ≡ some later
unfolding boot mq_send mq_recv vyro_os.Base.Text.copy_str vyro_os.Base.Text.copy_from
overtaken = refl

abbrev free_slot : Message
free_slot = record { id = pos 0; payload = replicate 120 0; alive = false }

boot-IsQueue : IsQueue boot
unfolding boot
boot-IsQueue = slots 32
  where
    slots : (n : ℕ) → IsQueue (replicate n free_slot)
    slots zero = tt
    slots (suc n) = (omega arith, slots n)
