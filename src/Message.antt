-- ===== src/Message.antt =====
-- veda/vm/message.py: the message that a computation runs. The types of its fields stand for the
-- validation of all but the gas. The value is always zero in the source and left out.
use veda_bvm.Common.{ℕ, Bool, true, false, Option, none, some, List, ltb, ◌==◌, if◌then◌else◌}
use veda_bvm.Exceptions.{Result, ok, err, validation_error}
use veda_bvm.Numeric.{uint_256_max}

-- 20 bytes, of which only equality matters, or the empty one.
abbrev pub Address : Type 0
Address = Option ℕ

abbrev pub create_contract_address : Address
create_contract_address = none

unfoldable pub same_address : Address → Address → Bool
same_address none none = true
same_address (some a) (some b) = a == b
same_address _ _ = false

pub record Message : Type 0 where
  pub gas : ℕ
  pub to : Address
  pub sender : Address
  pub message_data : List ℕ
  pub code : List ℕ
  pub depth : ℕ
  pub create_address : Option Address
  pub own_code_address : Option Address
  pub should_transfer_value : Bool
  pub is_static : Bool

-- `Message.__init__`
unfoldable pub new_message : Message → Result Message
new_message m = if ltb uint_256_max m.gas then err validation_error else ok m

unfoldable pub code_address : Message → Address
code_address m = elim m.own_code_address [ some a ↦ a | none ↦ m.to ]

unfoldable pub storage_address : Message → Address
storage_address m = elim m.create_address [ some a ↦ a | none ↦ m.to ]

unfoldable pub is_create : Message → Bool
unfolding same_address
is_create m = same_address m.to create_contract_address
