-- ===== src/Crawler/Message.antt =====
-- crawler/msg.go: the messages between crawlers, as items of the shared log.
use ww_webcrawler.Prelude.{ℕ, zero, suc, ◌/◌, ◌%◌, String, List, [], ◌∷◌, Result, ok, err, ℤ, pos}

-- The constants of `MessageType`.
abbrev pub visit : ℤ
visit = pos 0

abbrev pub claim : ℤ
claim = pos 1

abbrev pub report : ℤ
report = pos 2

pub record Message : Type 0 where
  pub message_type : ℤ
  pub urls : List String

-- `raft.Item`: bytes
pub record Item : Type 0 where
  pub key : List ℕ
  pub value : List ℕ

-- What encoding/json does with a `Message`. An error is its text.
pub record Json : Type 0 where
  pub marshal : Message → Result String (List ℕ)
  pub unmarshal : List ℕ → Result String Message

-- `binary.LittleEndian`, for a number of bytes
unfoldable pub little_endian : ℕ → ℕ → List ℕ
little_endian zero n = []
little_endian (suc k) n = (n % 256) ∷ little_endian k (n / 256)

unfoldable pub as_item : Json → Message → ℕ → Result String Item
unfolding little_endian
as_item json m raft_id = elim (json.marshal m) [
  | ok value ↦ ok (record { key = little_endian 8 raft_id; value = value })
  | err e ↦ err e
]

unfoldable pub from_item : Json → Item → Result String Message
from_item json item = json.unmarshal item.value
