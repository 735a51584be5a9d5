-- ===== src/Ipc/Messages.antt =====
-- The message queue of kernel/ipc.c: 32 slots; a message is put in the first free one, and taken
-- from the first one in use.
pub mod Order
pub mod Tests
use vyro_os.Base.{
  ℕ, ◌+◌, Bool, true, false, not, Option, none, some, List, set, replicate, ℤ, pos, minus_one,
}
use vyro_os.Base.Slots.{first, count_of}
use vyro_os.Base.Text.{copy_str, c_str}

abbrev pub max_msgs : ℕ
max_msgs = 32

-- the bytes of a payload
abbrev pub payload_size : ℕ
payload_size = 120

pub record Message : Type 0 where
  pub id : ℤ
  pub payload : List ℕ
  pub alive : Bool

pub boot : List Message
boot = replicate max_msgs (record { id = pos 0; payload = replicate payload_size 0; alive = false })

pub is_free : Message → Bool
is_free m = not m.alive

-- The slot after `mq_send`; its copy is `copy_str` with the bound of 119 bytes.
pub filled : Message → ℤ → List ℕ → Message
filled m id payload = record {
  id = id;
  payload = copy_str m.payload payload payload_size;
  alive = true;
}

pub mq_send : List Message → ℤ → List ℕ → List Message × ℤ
unfolding first is_free filled
mq_send mq id payload = elim (first is_free mq) [
  | none ↦ (mq, minus_one)
  | some (i, m) ↦ (set mq i (filled m id payload), pos 0)
]

-- `mq_recv`: the string put in `out_payload`, or none for the result -1
pub mq_recv : List Message → List Message × Option (List ℕ)
unfolding first
mq_recv mq = elim (first (λ m. m.alive) mq) [
  | none ↦ (mq, none)
  | some (i, m) ↦ (set mq i (record m { alive = false }), some (c_str m.payload))
]

pub mq_count : List Message → ℕ
unfolding count_of
mq_count mq = count_of (λ m. m.alive) mq
